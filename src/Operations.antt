-- ===== src/Operations.antt =====
-- liandanlu_native/runtime.py: `OperationRuntime`, which prepares, executes, verifies and recovers the
-- operations of tasks.
pub mod Admission
pub mod Execution
pub mod Verdict
pub mod Recovery
mod Runtime
mod Prepare
mod Execute
mod Recover
unfoldable pub use Runtime.*
unfoldable pub use Prepare.*
unfoldable pub use Execute.*
unfoldable pub use Recover.*
