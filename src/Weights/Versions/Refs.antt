-- ===== src/Weights/Versions/Refs.antt =====
-- The reference counts of the version table are right, and every operation keeps them so.
mod Defs
mod Hold
mod Drop
mod Advance
pub use Defs.*
pub use Hold.*
pub use Drop.*
pub use Advance.*
