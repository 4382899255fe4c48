-- ===== src/Server/Report.antt =====
-- Accuracy reports, and the decision to stop early.
mod Defs
pub mod Stop
pub mod Rounds
pub mod Complete
pub mod Tests
unfoldable pub use Defs.*
