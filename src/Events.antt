-- ===== src/Events.antt =====
-- liandanlu_native/events.py: `EventStore`, over the tables of a store or over lists in memory.
pub mod Log
pub mod Delivery
pub mod Outbox
mod Facade
unfoldable pub use Facade.*
