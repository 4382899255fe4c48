-- ===== src/Engine/Layers.antt =====
-- How the engine cuts the vertices into chunks, and how a chunk goes through the layers:
-- src/graph-server/engine/utils.cpp.
mod Defs
pub mod Progress
pub mod Cover
pub mod Tests
unfoldable pub use Defs.*
