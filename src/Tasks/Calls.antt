-- ===== src/Tasks/Calls.antt =====
-- The calls of the methods of `TaskRuntime` (liandanlu_native/runtime.py) on a task that exists, and what
-- each of them leaves behind.
use codex_test.Prelude.{
  ℕ, ◌+◌, ◌≡◌, refl, sym, ap, subst, String, Bool, true, false, Option, none, some, List, [], ◌∷◌,
  inl, inr, ◌⊎◌, if◌then◌else◌, Result, ok, err, key_error, value_error, lift, Exec, ◌>>=◌, ◌&&◌,
}
use codex_test.Prelude.Dict.{Dict, lookup}
use codex_test.Models.{Task, GoalClaim}
use codex_test.Models.States.{TaskState, waiting, TaskPhase, is_state, is_phase, is_terminal}
use codex_test.Storage.Outbox.{Draft}
use codex_test.Tasks.Runtime.{
  TaskRuntime, Stamp, find_task, or_key_error, or_same, queue_found, wait_found, update_found,
  control_found, settle_found, evaluate_found, queue_draft, put_task, touched, touch_world,
  record_event, touch_and_record, queue, wait, update_runtime_state, control, control_task,
  settle_control, settled_state, evaluate_goal, evaluated, missing_criteria, queued_task,
}

pub data TaskCall : Type 0 where
  queues : ℕ → TaskCall
  waits : String → String → TaskCall
  updates : Option TaskState → Option TaskPhase → String → String → TaskCall
  controls : TaskState → TaskCall
  settles : Bool → Bool → TaskCall
  evaluates : Dict GoalClaim → TaskCall

unfoldable pub perform : String → TaskCall → Stamp → Exec TaskRuntime Task
unfolding queue wait update_runtime_state control settle_control evaluate_goal
perform id (queues at) stamp = queue id at stamp
perform id (waits reason kind) stamp = wait id reason kind stamp
perform id (updates state phase kind actor) stamp =
    update_runtime_state id state phase kind actor stamp
perform id (controls desired) stamp = control id desired stamp
perform id (settles safe confirmed) stamp = settle_control id safe confirmed stamp
perform id (evaluates claims) stamp = evaluate_goal id claims stamp

-- The runtime after `u` has been written with the event `d`.
abbrev pub written : String → Task → Draft → Stamp → TaskRuntime → TaskRuntime
written id u d stamp r =
    record_event u d stamp (put_task id u (record r { world = touch_world r.world }))

-- `u` is `t` with other values in the columns that a method may change, one revision later.
pub record Follows (t u : Task) : Type 0 where
  pub same_id : u.task_id ≡ t.task_id
  pub same_workspace : u.workspace_id ≡ t.workspace_id
  pub same_goal : u.goal ≡ t.goal
  pub same_criteria : u.success_criteria ≡ t.success_criteria
  pub next_revision : u.revision ≡ t.revision + 1

kept :
    (t u : Task)
    → u.task_id ≡ t.task_id
    → u.workspace_id ≡ t.workspace_id
    → u.goal ≡ t.goal
    → u.success_criteria ≡ t.success_criteria
    → u.revision ≡ t.revision + 1
    → Follows t u
kept t u a b c d e = record {
  same_id = a;
  same_workspace = b;
  same_goal = c;
  same_criteria = d;
  next_revision = e;
}

-- What a method writes when it does not return early.
abbrev pub Writes : String → Task → Stamp → TaskRuntime → TaskRuntime → Type 0
Writes id t stamp r r' = (u : Task) × (d : Draft) × Follows t u × (r' ≡ written id u d stamp r)

abbrev pub Outcome : String → Task → Stamp → TaskRuntime → TaskRuntime → Type 0
Outcome id t stamp r r' = (r' ≡ r) ⊎ Writes id t stamp r r'

pub found :
    (id : String) (r : TaskRuntime) (t : Task) {B : Type 0} (k : Task → Exec TaskRuntime B)
    → lookup id r.tasks ≡ some t
    → (find_task id >>= k) r ≡ k t r
found id r t k h = ap (λ o. (or_key_error o >>= k) r) h

pub not_found :
    (id : String) (r : TaskRuntime) {B : Type 0} (k : Task → Exec TaskRuntime B)
    → lookup id r.tasks ≡ none
    → (find_task id >>= k) r ≡ (err key_error, r)
not_found id r k h = ap (λ o. (or_key_error o >>= k) r) h

touch-Outcome :
    (id : String) (t u : Task) (d : Task → Draft) (stamp : Stamp) (r : TaskRuntime)
    → Follows t (touched u)
    → Outcome id t stamp r (touch_and_record id u d stamp r).1
unfolding touch_and_record
touch-Outcome id t u d stamp r f = inr (touched u, d (touched u), f, refl)

-- An early return under a test leaves the runtime as it is.
guarded-Outcome :
    (id : String) (t u : Task) (d : Task → Draft) (early : Result Task) (stamp : Stamp)
    (r : TaskRuntime) (b : Bool)
    → Follows t (touched u)
    → Outcome id t stamp r ((if b then lift early else touch_and_record id u d stamp) r).1
guarded-Outcome id t u d early stamp r true f = inl refl
guarded-Outcome id t u d early stamp r false f = touch-Outcome id t u d stamp r f

found-Outcome :
    (id : String) (t : Task) (k : Task → Exec TaskRuntime Task) (stamp : Stamp) (r : TaskRuntime)
    → lookup id r.tasks ≡ some t
    → Outcome id t stamp r (k t r).1
    → Outcome id t stamp r ((find_task id >>= k) r).1
found-Outcome id t k stamp r h o = subst (λ x. Outcome id t stamp r x.1) (sym (found id r t k h)) o

evaluated-Follows : (missing : List String) (t : Task) → Follows t (touched (evaluated missing t))
evaluated-Follows [] t = kept t _ refl refl refl refl refl
evaluated-Follows (c ∷ cs) t = kept t _ refl refl refl refl refl

-- A call on a task that exists changes nothing, or writes the task and one event.
pub perform-Outcome :
    (id : String) (call : TaskCall) (stamp : Stamp) (r : TaskRuntime) (t : Task)
    → lookup id r.tasks ≡ some t
    → Outcome id t stamp r (perform id call stamp r).1
unfolding perform queue wait update_runtime_state control control_task settle_control evaluate_goal
perform-Outcome id (queues at) stamp r t h =
    found-Outcome id t (queue_found id at stamp) stamp r h (
      guarded-Outcome id t (queued_task at t) (queue_draft at) (err value_error) stamp r
        (is_terminal t.state) (kept t _ refl refl refl refl refl))
perform-Outcome id (waits reason kind) stamp r t h =
    found-Outcome id t (wait_found id reason kind stamp) stamp r h (
      touch-Outcome id t (record t { state = waiting; wait_reason = some reason }) _ stamp r
        (kept t _ refl refl refl refl refl))
perform-Outcome id (updates state phase kind actor) stamp r t h =
    found-Outcome id t (update_found id state phase kind actor stamp) stamp r h (
      guarded-Outcome id t
        (record t { state = or_same state t.state; phase = or_same phase t.phase }) _ (ok t) stamp r
        (is_state (or_same state t.state) t.state && is_phase (or_same phase t.phase) t.phase)
        (kept t _ refl refl refl refl refl))
perform-Outcome id (controls desired) stamp r t h =
    found-Outcome id t (control_found id desired stamp) stamp r h (
      guarded-Outcome id t (control_task desired t) _ (ok t) stamp r (is_terminal t.state)
        (kept t _ refl refl refl refl refl))
perform-Outcome id (settles safe confirmed) stamp r t h =
    found-Outcome id t (settle_found id safe confirmed stamp) stamp r h (
      guarded-Outcome id t (record t { state = settled_state safe confirmed t }) _ (ok t) stamp r
        (is_state (settled_state safe confirmed t) t.state) (kept t _ refl refl refl refl refl))
perform-Outcome id (evaluates claims) stamp r t h =
    found-Outcome id t (evaluate_found id claims stamp) stamp r h (
      touch-Outcome id t (evaluated (missing_criteria t.success_criteria claims) t) _ stamp r
        (evaluated-Follows _ t))
