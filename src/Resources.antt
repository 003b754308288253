-- ===== src/Resources.antt =====
-- liandanlu_native/resources.py: the admission of tasks to a bounded amount of CPU, memory and GPU, in
-- memory (`Broker`) or in the tables of a store (Storage/ResourceLeases).
pub mod Usage
pub mod Held
pub mod Capacity
pub mod History
pub mod Fencing
pub mod Same
pub mod Broker
