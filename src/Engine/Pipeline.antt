-- ===== src/Engine/Pipeline.antt =====
-- The way of the chunks through the queues of the engine: the work functions of
-- src/graph-server/engine/ops/pipeline.cpp and the callback of
-- src/graph-server/commmanager/resource_comm.cpp.
mod Defs
mod Flow
mod Return
mod Runs
mod Tests
