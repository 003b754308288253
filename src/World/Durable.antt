-- ===== src/World/Durable.antt =====
-- What the store holds after any calls on the world model: a reload gives the model back.
mod Saved
pub mod Calls
pub use Saved.*
pub use Calls.*
