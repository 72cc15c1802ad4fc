-- ===== src/Startup.antt =====
-- main.go: the options, the tables of what the subsystems offer, the start of every task, and main.
mod Defs
mod Main
mod CommandLine
mod Tree
unfoldable pub use Defs.*
unfoldable pub use Main.*
unfoldable pub use CommandLine.*
unfoldable pub use Tree.*
pub mod Starting
pub mod Ending
pub mod Addresses
pub mod Actions
pub mod Offers
pub mod Printed
pub mod Mounting
pub mod Serving
mod Tests
mod Requests
