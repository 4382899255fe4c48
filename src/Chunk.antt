-- ===== src/Chunk.antt =====
-- `Chunk` of src/common/utils.hpp, the unit of work that travels through the pipeline, and the
-- order by which the priority queues and the maps keep chunks.
mod Defs
mod Order
pub mod Tests
unfoldable pub use Defs.*
pub use Order.*
