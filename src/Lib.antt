-- ===== src/Lib.antt =====
-- Verification of the companion core, the package liandanlu_native: an engine that runs tasks for a
-- user and lets a model propose actions, under leases, budgets, policies and evidence.
--
-- The parts and how they interact. Tasks (runtime.py, TaskRuntime) are created, queued, controlled
-- and evaluated; each change raises a revision of the world model and leaves an event in the
-- outbox. Workers claim queued tasks by leases in the store (storage.py), and acquire CPU, memory,
-- GPU and exclusive labels (resources.py over storage.py). An action that a model proposes is
-- checked against the registry (capabilities.py) and the policy of the workspace (policy.py), and
-- becomes an operation (runtime.py, OperationRuntime) that is executed, verified and, after a
-- restart, recovered. Events go from the outbox to a log that consumers read and acknowledge
-- (events.py over storage.py). One consumer is the memory (memory.py): it turns events into
-- versioned records, once each. The desktop bridge (desktop_bridge.py) speaks to a desktop service
-- of the same user in frames over a local socket. The step of the agent (agent.py) puts tasks,
-- registry, policy, leases and operations together for one action that a model proposes on the
-- context of context.py; after a restart recovery.py reads everything back, recovers the operations
-- and settles the controls.
--
-- Which file models what. The module Models is liandanlu_native/models.py. Storage is the tables
-- and statements of liandanlu_native/storage.py: Tables (the rows), Tasks (saving and loading tasks
-- and operations), Outbox (outbox, log and cursors), Worlds (saving the world model), TaskLeases
-- and ResourceLeases. World is liandanlu_native/world.py, and World/Load the reload in storage.py;
-- Resources is resources.py; Events is events.py; Tasks and Operations are the two classes of
-- runtime.py; Capabilities and Policy are the files of those names. Scheduler is TaskScheduler of
-- runtime.py; Supervisor is supervisor.py, ControlIntents is control.py, Brain is brain.py, Memory
-- is memory.py, with its statements in Storage/Memories, and Bridge is desktop_bridge.py; Context
-- is context.py, Agent is agent.py and Recovery is recovery.py. Engine holds the objects that the
-- last two put together over one store. Each keeps the names of the source's methods. The other
-- children of these modules hold proofs and are named for what they prove; Prelude holds what all
-- share, and Tests runs the model on concrete inputs.
--
-- How the code is read. A class is a record and a method a function that returns its result and the
-- next state; an exception is a value of Error, without its message, and what was written before it
-- stays (the monad Exec of Prelude/Results). A method on an object that is found under an id has
-- its rest in a function whose name ends in _found or _with. Python dicts and tables with a primary
-- key are lists of pairs in the order of insertion, sets are lists, JSON texts in columns are the
-- values they encode. Where world model, events and runtime share one store, the store stands in
-- the world model. Times are natural numbers of ticks, which makes the order of two times the one
-- the code compares; numbers that Python does not bound are not bounded here. Floats are whole
-- numbers of millionths, bytes are natural numbers, and a socket is the list of what arrives on it,
-- cut into chunks as the peer and the system cut it. What new_id and now return, Python's str.lower
-- and repr, and the three functions of a capability are arguments, as are Python's float and json.
-- Every loop of the modelled code runs over a finite list, and is recursion on that list: no
-- definition needs fuel; receiving a frame recurses on the arrivals.
--
-- Not modelled: SQL text, schema migration and the SQLite connection with its transactions (each
-- method is one step, since the source runs its writes in one transaction); messages of exceptions;
-- the system calls on sockets and the json module, which come as arguments (a stream of arrivals,
-- and a codec); the predictions and the novelty of a brain snapshot.
pub mod Prelude
pub mod Models
pub mod Memory
pub mod Storage
pub mod World
pub mod Resources
pub mod Leases
pub mod Events
pub mod Tasks
pub mod Policy
pub mod Capabilities
pub mod Operations
pub mod Supervisor
pub mod ControlIntents
pub mod Brain
pub mod Scheduler
pub mod Bridge
pub mod Context
pub mod Engine
pub mod Recovery
pub mod Agent
pub mod Tests
