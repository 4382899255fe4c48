-- ===== src/Weights/Tensor.antt =====
-- `WeightTensor` of src/weight-server/weighttensor.cpp, with the buffers it owns.
mod Defs
pub mod Valid
pub mod Get
pub mod Drop
pub mod Advance
pub mod Write
pub mod Apply
pub mod Sync
pub mod Trace
pub mod Steps
pub mod Calls
pub mod Stash
pub mod Free
pub mod Update
pub mod Waits
pub mod Bind
pub mod New
pub mod Collect
pub mod Gradients
pub mod Tests
unfoldable pub use Defs.*
