-- ===== src/Engine.antt =====
-- The objects of an engine that share one world model, one event store and one store: `TaskRuntime` and
-- `OperationRuntime` (liandanlu_native/runtime.py) and `ResourceBroker` (resources.py), as recovery.py and
-- agent.py put them together. What one of them changes the others see.
use codex_test.Prelude.{ℕ, String, Option, none, some, List, Result, Exec}
use codex_test.Prelude.Dict.{Dict}
use codex_test.Models.{Task, Operation, Event}
use codex_test.Storage.{Store}
use codex_test.World.{WorldModel}
use codex_test.Events.{EventStore, flush_outbox}
use codex_test.Capabilities.{Actions}
use codex_test.Tasks.{TaskRuntime}
use codex_test.Operations.{OperationRuntime, Capability}
use codex_test.Resources.Broker.{ResourceBroker}

-- The store, if there is one, is `world.persistence`.
pub record Engine : Type 0 where
  pub world : WorldModel
  pub events : EventStore
  pub tasks : Dict Task
  pub registry : Actions
  pub capabilities : Dict Capability
  pub operations : Dict Operation
  pub broker : Option ResourceBroker

abbrev pub task_runtime : Engine → TaskRuntime
task_runtime e = record { world = e.world; events = e.events; tasks = e.tasks }

abbrev pub put_task_runtime : TaskRuntime → Engine → Engine
put_task_runtime r e = record e { world = r.world; events = r.events; tasks = r.tasks }

abbrev pub operation_runtime : Engine → OperationRuntime
operation_runtime e = record {
  world = e.world;
  events = e.events;
  registry = e.registry;
  capabilities = e.capabilities;
  operations = e.operations;
}

abbrev pub put_operation_runtime : OperationRuntime → Engine → Engine
put_operation_runtime r e = record e {
  world = r.world;
  events = r.events;
  operations = r.operations;
}

abbrev pub task_result {ℓ} : {A : Type ℓ} → Engine → Result A × TaskRuntime → Result A × Engine
task_result e (a, r) = (a, put_task_runtime r e)

-- A method of `TaskRuntime` on the engine.
abbrev pub on_tasks {ℓ} : {A : Type ℓ} → Exec TaskRuntime A → Exec Engine A
on_tasks m e = task_result e (m (task_runtime e))

abbrev pub operation_result {ℓ} :
    {A : Type ℓ} → Engine → Result A × OperationRuntime → Result A × Engine
operation_result e (a, r) = (a, put_operation_runtime r e)

-- A method of `OperationRuntime` on the engine.
abbrev pub on_operations {ℓ} : {A : Type ℓ} → Exec OperationRuntime A → Exec Engine A
on_operations m e = operation_result e (m (operation_runtime e))

abbrev pub set_persistence : Option Store → WorldModel → WorldModel
set_persistence s w = record w { persistence = s }

abbrev pub flushed : Engine → List Event × EventStore → Engine
flushed e (emitted, v) = record e {
  world = set_persistence v.persistence e.world;
  events = record v { persistence = none };
}

-- `events.flush_outbox()`, over the shared store, which stands in the world model alone.
unfoldable pub flush : (ℕ → String) → (ℕ → ℕ) → Engine → Engine
flush fresh at e =
    let v = e.events in
    flushed e (flush_outbox fresh at (record v { persistence = e.world.persistence }))

-- A broker over the store sees the engine's.
abbrev pub synced : ResourceBroker → Option Store → ResourceBroker
synced b s = elim b.persistence [ none ↦ b | some old ↦ record b { persistence = s } ]

abbrev pub store_after : Option Store → Option Store → Option Store
store_after none s = s
store_after (some t) s = some t

abbrev pub put_broker : ResourceBroker → Engine → Engine
put_broker b e = record e {
  broker = some b;
  world = set_persistence (store_after b.persistence e.world.persistence) e.world;
}

abbrev pub broker_result {ℓ} : {A : Type ℓ} → A × ResourceBroker → Engine → A × Engine
broker_result (a, b) e = (a, put_broker b e)

-- A method of `ResourceBroker` on the engine.
abbrev pub on_broker {ℓ} :
    {A : Type ℓ} → (ResourceBroker → A × ResourceBroker) → ResourceBroker → Engine → A × Engine
on_broker m b e = broker_result (m (synced b e.world.persistence)) e
