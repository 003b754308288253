-- ===== src/Operations/Runtime.antt =====
-- The state of `OperationRuntime` (liandanlu_native/runtime.py), and how it saves and records an operation.
-- The store that the runtime shares with its world model and event store, if any, is
-- `world.persistence`; without one, events go to `events`. An operation that a method changes in place is
-- written back under its id. A capability is code of another party: three functions, each of which
-- returns a value or raises, with the text that `repr` gives.
use codex_test.Prelude.{ℕ, String, Bool, true, Option, none, some, List}
use codex_test.Prelude.Dict.{Dict, insert}
use codex_test.Prelude.Json.{Value}
use codex_test.Models.{Operation}
use codex_test.Storage.{Store}
use codex_test.Storage.Outbox.{Draft}
use codex_test.Storage.Tasks.{save_operation, save_operation_with_outbox_event}
use codex_test.World.{WorldModel}
use codex_test.Events.{EventStore, enqueue_outbox}
use codex_test.Capabilities.{Actions}

pub data Call {ℓ} (A : Type ℓ) : Type ℓ where
  returned : A → Call A
  raised : String → Call A

pub record Capability : Type 0 where
  pub execute : Operation → List String → Call (Dict Value)
  pub verify : Operation → Dict Value → Call (List (Dict Value))
  pub reconcile : Operation → List String → Call (Bool × Dict Value)

pub record OperationRuntime : Type 0 where
  pub world : WorldModel
  pub events : EventStore
  pub registry : Actions
  pub capabilities : Dict Capability
  pub operations : Dict Operation

pub record Stamp : Type 0 where
  pub event_id : String
  pub at : ℕ

abbrev pub put_operation : Operation → OperationRuntime → OperationRuntime
put_operation op r = record r { operations = insert op.operation_id op r.operations }

abbrev pub set_store : Store → OperationRuntime → OperationRuntime
set_store s r = let w = r.world in record r { world = record w { persistence = some s } }

abbrev save_with : Option Store → Operation → OperationRuntime → OperationRuntime
save_with none op r = r
save_with (some s) op r = set_store (save_operation op s) r

-- `_save`
unfoldable pub save : Operation → OperationRuntime → OperationRuntime
save op r = save_with r.world.persistence op (put_operation op r)

abbrev pub operation_draft : String → String → Operation → Dict Value → Draft
operation_draft event_type actor op payload = record {
  event_type = event_type;
  actor = actor;
  workspace_id = op.workspace_id;
  task_id = some op.task_id;
  operation_id = some op.operation_id;
  object_refs = op.object_refs;
  payload = payload;
  causation_id = none;
  correlation_id = none;
  learning_allowed = true;
}

abbrev record_with : Option Store → Operation → Draft → Stamp → OperationRuntime → OperationRuntime
record_with none op d stamp r = record r {
  events = (enqueue_outbox d stamp.event_id stamp.at r.events).1;
}
record_with (some s) op d stamp r =
    set_store (save_operation_with_outbox_event op d stamp.event_id stamp.at s).1 r

-- `_record`
unfoldable pub record_operation :
    String → String → Dict Value → Operation → Stamp → OperationRuntime → OperationRuntime
record_operation event_type actor payload op stamp r =
    record_with r.world.persistence op (operation_draft event_type actor op payload) stamp
      (put_operation op r)
