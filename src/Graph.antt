-- ===== src/Graph.antt =====
-- The graph of one server: its partition, its vertices, edges and ghosts, the compressed adjacency
-- matrices, and the file that the preprocessing writes and the server reads
-- (graph-server/graph).
pub mod Defs
pub mod Compress
pub mod Columns
pub mod Slices
pub mod Adjacency
mod Partition
mod Ids
mod Edges
mod Loaded
mod Invariant
mod OutEdges
mod InEdges
mod Process
mod Ghosts
mod Normalise
mod Write
mod Read
mod ReadWrite
mod RoundTrip
mod Preprocess
mod Prepared
mod Start
mod Built
mod Normalised
pub mod Finished
mod Whole
mod Symmetric
pub mod Tests
mod Run
