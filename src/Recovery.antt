-- ===== src/Recovery.antt =====
-- `RecoveryCoordinator` of liandanlu_native/recovery.py. The ids and times of the events are arguments,
-- by the operation and by the task; `repr` gives the text of an exception.
pub mod Returns
pub mod Rounds
pub mod Settled
use codex_test.Prelude.{
  ℕ, suc, ◌+◌, String, Bool, true, false, not, ◌||◌, Option, none, some, List, [], ◌∷◌, Error,
  Result, ok, err, Exec, if◌then◌else◌,
}
use codex_test.Prelude.Dict.{Dict, lookup, values}
use codex_test.Models.{Task, Operation, TaskLease}
use codex_test.Models.States.{
  TaskState, paused, cancelled, is_state, OperationState, prepared, running, unknown, reconciling,
  observed, verifying,
}
use codex_test.Storage.{Store}
use codex_test.Storage.Tasks.{load_tasks, load_operations}
use codex_test.World.Load.{load_world_model}
use codex_test.Capabilities.{Actions}
use codex_test.Tasks
use codex_test.Tasks.{settle_control}
use codex_test.Operations
use codex_test.Operations.{Capability, recover_operation, Stamps}
use codex_test.Memory.Store.{MemoryStore, from_persistence}
use codex_test.Scheduler.{TaskScheduler, rebuild_scheduler}
use codex_test.Engine.{Engine, task_runtime, on_tasks, on_operations, flush}

pub record RecoveryCoordinator : Type 0 where
  pub engine : Engine
  pub memory : Option MemoryStore

-- Everything is read back from the store.
unfoldable pub from_store : Actions → Dict Capability → Store → RecoveryCoordinator
from_store registry capabilities s = record {
  engine = record {
    world = load_world_model s;
    events = record { persistence = none; events = []; outbox = []; cursors = [] };
    tasks = load_tasks s;
    registry = registry;
    capabilities = capabilities;
    operations = load_operations s;
    broker = none;
  };
  memory = some (from_persistence s);
}

unfoldable pub scheduler_of : RecoveryCoordinator → TaskScheduler
scheduler_of c = rebuild_scheduler (task_runtime c.engine)

-- `op.state in {PREPARED, RUNNING, UNKNOWN, RECONCILING, OBSERVED, VERIFYING}`
abbrev pub is_open : OperationState → Bool
is_open prepared = true
is_open running = true
is_open unknown = true
is_open reconciling = true
is_open observed = true
is_open verifying = true
is_open _ = false

abbrev pub counted : Result Operation × Engine → Result Bool × Engine
counted (err x, e) = (err x, e)
counted (ok after, e) = (ok true, e)

-- One round of the first loop; the result says whether it counts.
unfoldable pub recover_one : (Error → String) → (String → Stamps) → Operation → Exec Engine Bool
recover_one repr stamps op e =
    if is_open op.state
    then counted (on_operations (recover_operation repr op (stamps op.operation_id)) e)
    else (ok false, e)

abbrev pub one_more : Bool → ℕ → ℕ
one_more true n = n + 1
one_more false n = n

unfoldable pub recover_operations :
    (Error → String) → (String → Stamps) → List Operation → ℕ → Exec Engine ℕ
unfolding recover_one
recover_operations repr stamps [] n e = (ok n, e)
recover_operations repr stamps (op ∷ ops) n e =
    let r = recover_one repr stamps op e in
    elim r.0 [ err x ↦ (err x, r.1) | ok b ↦ recover_operations repr stamps ops (one_more b n) r.1 ]

-- `task.desired_state in {PAUSED, CANCELLED}`
abbrev pub wants_control : TaskState → Bool
wants_control s = is_state s paused || is_state s cancelled

abbrev pub changed : TaskState → Result Task × Engine → Result Bool × Engine
changed before (err x, e) = (err x, e)
changed before (ok after, e) = (ok (not (is_state after.state before)), e)

-- One round of the second loop; the result says whether the state of the task changed.
unfoldable pub settle_one : (String → Tasks.Stamp) → Task → Exec Engine Bool
settle_one stamps t e =
    if wants_control t.desired_state
    then changed t.state (on_tasks (settle_control t.task_id true false (stamps t.task_id)) e)
    else (ok false, e)

-- The list holds the tasks as they were when the loop began; it changes one task a round.
unfoldable pub settle_tasks : (String → Tasks.Stamp) → List Task → ℕ → Exec Engine ℕ
unfolding settle_one
settle_tasks stamps [] n e = (ok n, e)
settle_tasks stamps (t ∷ ts) n e =
    let r = settle_one stamps t e in
    elim r.0 [ err x ↦ (err x, r.1) | ok b ↦ settle_tasks stamps ts (one_more b n) r.1 ]

-- What `recover` is given from outside.
pub record Moments : Type 0 where
  pub repr : Error → String
  pub operation_stamps : String → Stamps
  pub task_stamps : String → Tasks.Stamp
  pub fresh : ℕ → String
  pub at : ℕ → ℕ

abbrev pub then_flush : Moments → ℕ → Result ℕ × Engine → Result (ℕ × ℕ) × Engine
then_flush k reconciled (err x, e) = (err x, e)
then_flush k reconciled (ok settled, e) = (ok (reconciled, settled), flush k.fresh k.at e)

abbrev pub then_settle : Moments → Result ℕ × Engine → Result (ℕ × ℕ) × Engine
then_settle k (err x, e) = (err x, e)
then_settle k (ok reconciled, e) =
    then_flush k reconciled (settle_tasks k.task_stamps (values e.tasks) 0 e)

-- The numbers of operations reconciled and of controls settled.
unfoldable pub recover : Moments → Exec Engine (ℕ × ℕ)
unfolding flush recover_operations settle_tasks
recover k e = then_settle k (recover_operations k.repr k.operation_stamps (values e.operations) 0 e)
