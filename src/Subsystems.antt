-- ===== src/Subsystems.antt =====
-- subsystems: what each offers as actions, beside the workflow.
pub mod Filesystem
pub mod Terminal
pub mod Jupyter
pub mod Vscode
pub mod Checkpoint
pub mod Resume
pub mod Placeholders
pub mod Environment
pub mod Reuse
pub mod Snapshots
mod Tests
