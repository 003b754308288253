-- ===== src/Operations/Prepare.antt =====
-- `OperationRuntime.prepare` (liandanlu_native/runtime.py). `lower` is Python's `str.lower`; the id of the
-- operation and the times that `now()` returns are arguments. The task that the source changes in place
-- is returned beside the operation.
use codex_test.Prelude.{
  ℕ, ◌+◌, String, Bool, true, Option, none, some, List, [], ◌∷◌, ◌==◌, if◌then◌else◌, Result, ok,
  err, Exec, lease_lost, budget_operations, budget_deadline,
}
use codex_test.Prelude.Dict.{Dict}
use codex_test.Prelude.Int.{ℤ}
use codex_test.Prelude.Json.{number}
use codex_test.Models.{Task, Operation, Entity, TaskLease, ResourceLease, ActionProposal}
use codex_test.Models.Budget.{BlockReason, deadline, block_reason}
use codex_test.Models.States.{prepared}
use codex_test.Storage.{Store}
use codex_test.Storage.Outbox.{Draft}
use codex_test.Storage.TaskLeases.{validate_task_lease_identity}
use codex_test.Storage.ResourceLeases.{validate_resource_lease_identity}
use codex_test.Storage.Tasks.{save_task_and_operation_with_outbox_event}
use codex_test.World.{
  WorldModel, assert_access, assert_revisions, then_check, bump_domain, persist_revisions,
}
use codex_test.Events.{enqueue_outbox}
use codex_test.Capabilities.{ActionSpec, resolve, idempotency_value}
use codex_test.Operations.Runtime.{
  OperationRuntime, Stamp, put_operation, set_store, operation_draft,
}

abbrev pub unit_of : Result Entity → Result (Unit {0})
unit_of (ok e) = ok tt
unit_of (err x) = err x

-- The loop over the references of a proposal.
unfoldable pub assert_all_access : WorldModel → String → String → List String → Result (Unit {0})
assert_all_access w permission workspace_id [] = ok tt
assert_all_access w permission workspace_id (ref ∷ refs) =
    then_check (unit_of (assert_access w ref permission workspace_id))
      (assert_all_access w permission workspace_id refs)

-- `self.persistence is not None and not self.persistence.validate_…_lease_identity(…)`, negated
abbrev pub task_lease_holds : Option Store → String → String → ℕ → ℕ → Bool
task_lease_holds none task owner generation at = true
task_lease_holds (some s) task owner generation at =
    validate_task_lease_identity task owner generation at s

abbrev pub resource_lease_holds : Option Store → String → String → ℕ → ℕ → Bool
resource_lease_holds none task owner generation at = true
resource_lease_holds (some s) task owner generation at =
    validate_resource_lease_identity task owner generation at s

abbrev pub check_task_lease : Option Store → Task → Option TaskLease → ℕ → Result (Unit {0})
check_task_lease store t none at = ok tt
check_task_lease store t (some lease) at =
    if lease.task_id == t.task_id
    then (if task_lease_holds store t.task_id lease.owner_id lease.generation at
        then ok tt
        else err lease_lost)
    else err lease_lost

abbrev pub check_resource_lease : Option Store → Task → Option ResourceLease → ℕ → Result (Unit {0})
check_resource_lease store t none at = ok tt
check_resource_lease store t (some lease) at =
    if lease.task_id == t.task_id
    then (if resource_lease_holds store t.task_id lease.owner_id lease.generation at
        then ok tt
        else err lease_lost)
    else err lease_lost

abbrev pub check_budget : Option BlockReason → Result (Unit {0})
check_budget none = ok tt
check_budget (some BlockReason.max_operations) = err budget_operations
check_budget (some deadline) = err budget_deadline

-- What a caller of `prepare` passes beside the task.
pub record Order : Type 0 where
  pub proposal : ActionProposal
  pub expected_revisions : Dict ℕ
  pub task_lease : Option TaskLease
  pub resource_lease : Option ResourceLease

-- The times that the calls of `now()` in `prepare` return.
pub record Clock : Type 0 where
  pub task_lease_at : ℕ
  pub resource_lease_at : ℕ
  pub budget_at : ℕ

-- The checks of `prepare` behind the look-up of the spec, in their order.
unfoldable pub check_order : WorldModel → Task → Order → Clock → ActionSpec → Result (Unit {0})
check_order w t o clock spec =
    then_check (assert_revisions w o.expected_revisions (some t.workspace_id)) (
      then_check
        (assert_all_access w spec.required_permission t.workspace_id o.proposal.object_refs)
        (then_check (check_task_lease w.persistence t o.task_lease clock.task_lease_at) (
          then_check (check_resource_lease w.persistence t o.resource_lease clock.resource_lease_at)
            (check_budget (block_reason t.budget clock.budget_at)))))

abbrev pub map_some {ℓ κ} : {A : Type ℓ} {B : Type κ} → (A → B) → Option A → Option B
map_some f none = none
map_some f (some a) = some (f a)

unfoldable pub make_operation : String → Task → Order → ActionSpec → Operation
make_operation operation_id t o spec = record {
  operation_id = operation_id;
  task_id = t.task_id;
  workspace_id = t.workspace_id;
  capability = o.proposal.capability;
  action = o.proposal.action;
  object_refs = o.proposal.object_refs;
  arguments = o.proposal.arguments;
  risk_class = spec.risk_class;
  required_permission = spec.required_permission;
  idempotency_mode = idempotency_value spec.idempotency_mode;
  state = prepared;
  expected_revisions = o.expected_revisions;
  evidence = [];
  result = none;
  error = none;
  task_lease_owner_id = map_some (λ (l : TaskLease). l.owner_id) o.task_lease;
  task_lease_generation = map_some (λ (l : TaskLease). l.generation) o.task_lease;
  resource_lease_owner_id = map_some (λ (l : ResourceLease). l.owner_id) o.resource_lease;
  resource_lease_generation = map_some (λ (l : ResourceLease). l.generation) o.resource_lease;
}

abbrev pub charged : Task → Task
charged t =
    let b = t.budget in
    record t {
      budget = record b { operations_started = b.operations_started + 1 };
      revision = t.revision + 1;
    }

abbrev prepared_draft : Task → Operation → Draft
prepared_draft t op = operation_draft "operation.prepared" "engine" op (
    ("budget_operations_started", number (ℤ.pos t.budget.operations_started))
    ∷ ("budget_max_operations", number t.budget.max_operations)
    ∷ [])

abbrev save_both : Option Store → Task → Operation → Stamp → OperationRuntime → OperationRuntime
save_both none t op stamp r = record r {
  events = (enqueue_outbox (prepared_draft t op) stamp.event_id stamp.at r.events).1;
}
save_both (some s) t op stamp r =
    set_store
      (save_task_and_operation_with_outbox_event t op (prepared_draft t op) stamp.event_id stamp.at
        s).1
      r

-- What `prepare` does once every check has passed.
unfoldable pub commit : Task → Operation → Stamp → OperationRuntime → OperationRuntime
commit t op stamp r =
    let w = persist_revisions (bump_domain "tasks" r.world).1 in
    save_both w.persistence t op stamp (put_operation op (record r { world = w }))

abbrev pub commit_checked :
    Result (Unit {0}) → Task → Operation → Stamp → Exec OperationRuntime (Task × Operation)
commit_checked (err x) t op stamp r = (err x, r)
commit_checked (ok u) t op stamp r = (ok (t, op), commit t op stamp r)

abbrev pub prepare_with :
    Result ActionSpec
    → String
    → Task
    → Order
    → Clock
    → Stamp
    → Exec OperationRuntime (Task × Operation)
prepare_with (err x) operation_id t o clock stamp r = (err x, r)
prepare_with (ok spec) operation_id t o clock stamp r =
    commit_checked (check_order r.world t o clock spec) (charged t)
      (make_operation operation_id t o spec) stamp r

unfoldable pub prepare :
    (String → String)
    → String
    → Task
    → Order
    → Clock
    → Stamp
    → Exec OperationRuntime (Task × Operation)
prepare lower operation_id t o clock stamp r =
    prepare_with (resolve lower r.registry o.proposal) operation_id t o clock stamp r
