-- ===== src/Router.antt =====
-- internal/router/router.go: actions, the table of routes, and the answer to a request.
mod Defs
mod Handler
unfoldable pub use Defs.*
unfoldable pub use Handler.*
pub mod Table
pub mod Replies
pub mod Dispatch
mod Tests
