-- ===== src/Engine/Scatter.antt =====
-- The ghost messages between the engines: `scatterGCN`, `scatterGAT` and `ghostReceiverGCN` of
-- src/graph-server/engine/ops, and `verticesPushOut` of src/graph-server/engine/utils.cpp.
mod Defs
mod Buckets
mod Batches
mod Send
mod Whole
mod Receive
mod Rows
mod Deliver
mod Arrive
mod Tests
