-- ===== src/Supervisor.antt =====
-- liandanlu_native/supervisor.py: the services that the engine starts, watches and restarts.
pub mod Keeps
pub mod Fencing
mod Runtime
unfoldable pub use Runtime.*
