-- ===== src/Scheduler.antt =====
-- liandanlu_native/runtime.py: `TaskScheduler`, the queues of tasks in memory.
pub mod Queues
mod Heaps
unfoldable pub use Heaps.*
