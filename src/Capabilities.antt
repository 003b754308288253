-- ===== src/Capabilities.antt =====
-- liandanlu_native/capabilities.py: the registry of actions, and the check of a proposal's arguments.
pub mod Arguments
mod Registry
unfoldable pub use Registry.*
