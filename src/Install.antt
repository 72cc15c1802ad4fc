-- ===== src/Install.antt =====
-- internal/install: the tree that Linkspan fetches into.
mod Defs
unfoldable pub use Defs.*
pub mod Fetching
mod Tests
