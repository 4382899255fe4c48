-- ===== src/Engine.antt =====
-- The engine of a graph server, src/graph-server/engine.
pub mod Layers
pub mod Schedule
pub mod Pipeline
pub mod Scatter
pub mod Aggregate
