-- ===== src/Matrices.antt =====
-- The operators of `Matrix`, src/common/matrix.cpp, on the heap of Weights.Heap.
mod Defs
pub mod Product
pub mod Files
pub mod Elementwise
pub mod Operators
pub mod Tests
unfoldable pub use Defs.*
