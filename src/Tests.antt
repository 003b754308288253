-- ===== src/Tests.antt =====
-- Runs of the model on concrete inputs.
mod World
mod Resources
mod Leases
mod Events
mod Tasks
mod Rules
mod Operations
mod Scheduler
mod Intents
mod Supervisor
mod Memory
mod Bridge
mod Agent
mod Context
