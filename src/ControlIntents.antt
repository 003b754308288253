-- ===== src/ControlIntents.antt =====
-- liandanlu_native/control.py: how a spoken intent finds its task.
pub mod Choice
mod Resolver
unfoldable pub use Resolver.*
