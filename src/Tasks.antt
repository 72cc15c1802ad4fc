-- ===== src/Tasks.antt =====
-- internal/tasks: the registry of background work, and the one fork path.
mod Types
mod Listen
mod Start
mod Run
mod Query
mod Steps
pub mod Later
pub mod Tracked
pub mod NoneLost
pub mod Caught
pub mod Frozen
pub mod Ends
pub mod Fatal
pub mod Listening
pub mod Starting
pub mod StopAll
pub mod Selecting
pub mod Stopping
pub mod Processes
unfoldable pub use Types.*
unfoldable pub use Listen.*
unfoldable pub use Start.*
unfoldable pub use Run.*
unfoldable pub use Query.*
unfoldable pub use Steps.*
mod Tests
