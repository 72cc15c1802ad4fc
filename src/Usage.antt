-- ===== src/Usage.antt =====
-- internal/usage: what the node's files say of the job's use of it.
mod Defs
unfoldable pub use Defs.*
pub mod Counting
pub mod Gpu
pub mod Network
pub mod Polling
pub mod Rounds
pub mod Links
mod Tests
