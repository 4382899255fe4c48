-- ===== src/Weights/Versions.antt =====
-- The versions of a weight matrix: `RefMat` and the first members of `WeightTensor` in
-- src/weight-server/weighttensor.hpp, over any type of matrix.
mod Defs
pub mod Refs
pub mod Calls
pub mod Mats
pub mod Release
pub mod Tests
unfoldable pub use Defs.*
