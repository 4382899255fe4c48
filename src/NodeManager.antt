-- ===== src/NodeManager.antt =====
-- The messages between the graph servers (graph-server/nodemanager/nodemanager.cpp): the barrier,
-- the counts of the nodes that finished an epoch, and the agreement on the last asynchronous epoch.
pub mod Message
mod Defs
mod Slots
mod Epochs
mod Updates
mod Sync
mod Agreement
mod Barrier
mod Tests
unfoldable pub use Defs.*
