-- ===== src/Forward.antt =====
-- internal/forward, and the streams of internal/tunnel/link: what reaches a server, and how it is carried.
mod Defs
mod Pipe
unfoldable pub use Defs.*
pub use Pipe.*
pub mod Reaching
pub mod Delivering
mod Tests
