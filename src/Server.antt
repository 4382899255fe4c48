-- ===== src/Server.antt =====
-- The weight server of src/weight-server/weightserver.cpp and serverworker.cpp, above the tensors.
pub mod Report
pub mod Updates
