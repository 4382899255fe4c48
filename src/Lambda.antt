-- ===== src/Lambda.antt =====
-- `LambdaComm` of src/graph-server/commmanager/lambda_comm.cpp: lambdas are started, started again
-- when they take too long, and their results are taken once.
mod Defs
pub mod Once
pub mod Tests
unfoldable pub use Defs.*
