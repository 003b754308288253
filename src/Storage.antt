-- ===== src/Storage.antt =====
-- liandanlu_native/storage.py: the tables of `SQLiteStore`, one field each. A table with a primary key
-- is a `Dict` in the order of its rows, and a column that holds JSON holds the value. The statements
-- of a method run in one transaction on one connection, so a method is a function on the tables.
pub mod Worlds
pub mod Tasks
pub mod Outbox
pub mod Memories
pub mod TaskLeases
pub mod ResourceLeases
mod Tables
pub use Tables.*
