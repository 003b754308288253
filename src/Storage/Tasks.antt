-- ===== src/Storage/Tasks.antt =====
-- liandanlu_native/storage.py: how tasks and operations are saved, with the event that goes with them,
-- and loaded. The columns of a budget hold its three numbers.
use codex_test.Prelude.{ℕ, String, Option, none, some, []}
use codex_test.Prelude.Dict.{Dict, lookup, insert, values, rebuild}
use codex_test.Models.{Task, Operation}
use codex_test.Storage.Tables.{Store}
use codex_test.Storage.Outbox.{Draft, insert_outbox}

-- INSERT … ON CONFLICT(task_id) DO UPDATE SET all the other columns
unfoldable pub upsert_task : Task → Store → Store
upsert_task t s = record s { tasks = insert t.task_id t s.tasks }

unfoldable pub save_task : Task → Store → Store
unfolding upsert_task
save_task t s = upsert_task t s

-- The caller's draft carries the id of the task.
unfoldable pub save_task_with_outbox_event : Task → Draft → String → ℕ → Store → String × Store
unfolding upsert_task insert_outbox
save_task_with_outbox_event t d event_id at s =
    insert_outbox (record d { task_id = some t.task_id }) event_id at (upsert_task t s)

unfoldable pub load_tasks : Store → Dict Task
load_tasks s = rebuild (λ (t : Task). t.task_id) [] (values s.tasks)

-- ON CONFLICT(operation_id) DO UPDATE SET the columns that may change; the others stay as they are.
abbrev pub updated_operation : Option Operation → Operation → Operation
updated_operation none op = op
updated_operation (some old) op = record old {
  workspace_id = op.workspace_id;
  state = op.state;
  required_permission = op.required_permission;
  idempotency_mode = op.idempotency_mode;
  expected_revisions = op.expected_revisions;
  evidence = op.evidence;
  result = op.result;
  error = op.error;
  task_lease_owner_id = op.task_lease_owner_id;
  task_lease_generation = op.task_lease_generation;
  resource_lease_owner_id = op.resource_lease_owner_id;
  resource_lease_generation = op.resource_lease_generation;
}

unfoldable pub upsert_operation : Operation → Store → Store
upsert_operation op s = record s {
  operations =
      insert op.operation_id (updated_operation (lookup op.operation_id s.operations) op)
        s.operations;
}

unfoldable pub save_operation : Operation → Store → Store
unfolding upsert_operation
save_operation op s = upsert_operation op s

unfoldable pub save_operation_with_outbox_event :
    Operation → Draft → String → ℕ → Store → String × Store
unfolding upsert_operation insert_outbox
save_operation_with_outbox_event op d event_id at s =
    insert_outbox
      (record d {
        task_id = some op.task_id;
        operation_id = some op.operation_id;
        object_refs = op.object_refs;
      })
      event_id at (upsert_operation op s)

unfoldable pub save_task_and_operation_with_outbox_event :
    Task → Operation → Draft → String → ℕ → Store → String × Store
unfolding upsert_task upsert_operation insert_outbox
save_task_and_operation_with_outbox_event t op d event_id at s =
    insert_outbox
      (record d {
        task_id = some t.task_id;
        operation_id = some op.operation_id;
        object_refs = op.object_refs;
      })
      event_id at (upsert_operation op (upsert_task t s))

unfoldable pub load_operations : Store → Dict Operation
load_operations s = rebuild (λ (op : Operation). op.operation_id) [] (values s.operations)
