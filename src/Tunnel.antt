-- ===== src/Tunnel.antt =====
-- internal/tunnel: the transports that carry the API off the node.
mod Transports
mod Hosting
mod Modes
mod Redial
unfoldable pub use Transports.*
unfoldable pub use Hosting.*
unfoldable pub use Modes.*
unfoldable pub use Redial.*
pub mod Accepting
pub mod Running
pub mod Listing
pub mod Backoff
mod Tests
