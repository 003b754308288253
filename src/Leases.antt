-- ===== src/Leases.antt =====
-- Task leases (liandanlu_native/storage.py): which task a worker is given, and how long it is its own.
pub mod Claims
pub mod Fencing
