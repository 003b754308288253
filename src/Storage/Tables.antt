-- ===== src/Storage/Tables.antt =====
-- The tables that `SQLiteStore._migrate` of liandanlu_native/storage.py creates.
use codex_test.Prelude.{ℕ, String, Bool, Option, none, List, []}
use codex_test.Prelude.Dict.{Dict}
use codex_test.Prelude.Json.{Value}
use codex_test.Models.{TaskLease, ResourceLease, Entity, Task, Operation, Event}
use codex_test.Models.Revisions.{WorldRevisions}
use codex_test.Memory.Records.{MemoryRecord}

pub record OutboxRow : Type 0 where
  pub outbox_id : ℕ
  pub event_id : Option String
  pub workspace_id : String
  pub event_type : String
  pub actor : String
  pub task_id : Option String
  pub operation_id : Option String
  pub object_refs : List String
  pub payload : Dict Value
  pub causation_id : Option String
  pub correlation_id : Option String
  pub occurred_at : ℕ
  pub learning_allowed : Bool
  pub dispatched : Bool

-- A row of `consumer_receipts`; its primary key is the consumer and the event.
pub record Receipt : Type 0 where
  pub consumer_id : String
  pub event_id : String
  pub sequence : ℕ
  pub status : String
  pub result_ref : Option String

-- `last_outbox_id` and `last_sequence` are the counters of the two AUTOINCREMENT keys.
pub record Store : Type 0 where
  pub tasks : Dict Task
  pub operations : Dict Operation
  pub world_entities : Dict Entity
  pub world_relations : List (String × String × String)
  pub world_revisions : Option WorldRevisions
  pub workspace_revisions : Dict ℕ
  pub task_leases : Dict TaskLease
  pub resource_leases : Dict ResourceLease
  pub event_outbox : List OutboxRow
  pub last_outbox_id : ℕ
  pub events : List Event
  pub last_sequence : ℕ
  pub consumer_cursors : Dict ℕ
  pub consumer_receipts : List Receipt
  pub memory_records : Dict MemoryRecord

abbrev pub new_store : Store
new_store = record {
  tasks = [];
  operations = [];
  world_entities = [];
  world_relations = [];
  world_revisions = none;
  workspace_revisions = [];
  task_leases = [];
  resource_leases = [];
  event_outbox = [];
  last_outbox_id = 0;
  events = [];
  last_sequence = 0;
  consumer_cursors = [];
  consumer_receipts = [];
  memory_records = [];
}
