-- ===== src/World.antt =====
-- liandanlu_native/world.py: `WorldModel` and its methods. `persistence` holds the contents of the
-- store that the model writes through to, if it has one.
pub mod Load
pub mod Access
pub mod Durable
mod Model
unfoldable pub use Model.*
