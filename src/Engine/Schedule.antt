-- ===== src/Engine/Schedule.antt =====
-- `scheduleAsyncFunc` of src/graph-server/engine/ops/pipeline.cpp: which chunk may go on, and when.
mod Defs
pub mod Staleness
pub mod Release
pub mod Tests
unfoldable pub use Defs.*
