-- ===== src/Memory.antt =====
-- liandanlu_native/memory.py: facts, episodes and strategies that outlive a task, over the tables of a
-- store or over dicts in memory.
pub mod Records
pub mod Store
pub mod History
pub mod Once
pub mod Scope
pub mod Support
pub mod Pipeline
