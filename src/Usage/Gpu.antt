-- ===== src/Usage/Gpu.antt =====
-- internal/usage/gpu.go: the GPUs of the job and their metrics, from NVML or DCGM.
mod Values
mod Nvml
mod Dcgm
mod Opening
unfoldable pub use Values.*
unfoldable pub use Nvml.*
unfoldable pub use Dcgm.*
unfoldable pub use Opening.*
pub mod Entries
pub mod Fallback
pub mod Merging
pub mod Totals
pub mod Watching
pub mod Sampling
mod Tests
