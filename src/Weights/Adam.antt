-- ===== src/Weights/Adam.antt =====
-- `AdamOptimizer` of src/weight-server/AdamOptimizer.cpp.
mod Defs
pub mod Total
unfoldable pub use Defs.*
pub mod Tests
