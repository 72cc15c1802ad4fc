-- ===== src/Sshd.antt =====
-- internal/sshd: the SSH server of a VS Code session.
mod Defs
unfoldable pub use Defs.*
mod Streams
unfoldable pub use Streams.*
pub mod Guarding
pub mod Closing
mod Tests
