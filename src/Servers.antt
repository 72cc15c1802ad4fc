-- ===== src/Servers.antt =====
-- internal/servers/servers.go: the actions over the task registry, and the life of a process.
mod Defs
unfoldable pub use Defs.*
pub mod Lives
mod Tests
