-- ===== src/Workflow.antt =====
-- subsystems/workflow/workflow.go: the triggers of a document, and the steps that they run.
mod Document
mod Moments
unfoldable pub use Document.*
unfoldable pub use Moments.*
pub mod Binding
pub mod Validity
pub mod Loading
pub mod Running
pub mod Interleaving
pub mod Logged
pub mod Ordering
pub mod Job
mod Tests
