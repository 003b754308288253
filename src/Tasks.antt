-- ===== src/Tasks.antt =====
-- liandanlu_native/runtime.py: `TaskRuntime`, the state machine of a task.
pub mod Effects
pub mod Calls
pub mod Audit
pub mod Stored
pub mod Control
pub mod Goals
mod Runtime
unfoldable pub use Runtime.*
