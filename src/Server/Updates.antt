-- ===== src/Server/Updates.antt =====
-- The exchange of updates between the lambdas, a weight server and the other weight servers:
-- src/weight-server/serverworker.cpp, and applyUpdate and receiver of weightserver.cpp.
mod Defs
pub mod Store
pub mod Threads
pub mod Steps
pub mod Rest
pub mod Handlers
pub mod Open
pub mod Round
pub mod Requests
pub mod Tests
unfoldable pub use Defs.*
