-- ===== src/Engine/Aggregate.antt =====
-- The aggregation of the engines that compute on the CPU: `srcVFeats2eFeats` and `dstVFeats2eFeats` of
-- src/graph-server/engine/utils.cpp, and `aggregateGCN` and `aggregateGAT` of src/graph-server/engine/ops.
mod Defs
mod Places
mod Sums
mod Rows
mod Summed
mod Whole
mod Tests
