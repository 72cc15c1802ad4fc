-- ===== src/Go.antt =====
-- What the source uses of Go's standard library on texts.
pub mod Strings
pub mod Order
pub mod Strconv
pub mod HostPort
pub mod Flags
pub mod Cutting
pub mod RoundTrip
pub mod Integers
pub mod Commands
pub mod Trips
pub mod Setting
pub mod Mux
pub mod Matching
pub mod Found
pub mod Finding
pub mod Apart
pub mod Routing
