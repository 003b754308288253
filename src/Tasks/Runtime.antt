-- ===== src/Tasks/Runtime.antt =====
-- The methods of `TaskRuntime` (liandanlu_native/runtime.py). The store that the runtime shares with its
-- world model and event store, if any, is `world.persistence`; without one, events go to `events`.
-- A task that a method changes in place is written back under its key.
use codex_test.Prelude.{
  ℕ, ◌+◌, String, Bool, true, not, ◌&&◌, ◌||◌, Option, none, some, List, [], ◌∷◌, ◌++◌, is_nil,
  select, if◌then◌else◌, ok, Exec, pure, raise, ◌>>=◌, key_error, value_error,
}
use codex_test.Prelude.Dict.{Dict, lookup, insert}
use codex_test.Prelude.Int.{ℤ}
use codex_test.Prelude.Json.{Value, Items, text, number, array, nil, cons}
use codex_test.Models.{Task, GoalClaim}
use codex_test.Models.States.{
  TaskState, created, queued, running, waiting, pausing, paused, cancelling, completed, cancelled,
  TaskPhase, observing, replanning, task_state_value, task_phase_value, is_state, is_phase,
  is_terminal,
}
use codex_test.Models.Budget.{TaskBudget, default_budget}
use codex_test.Storage.{Store}
use codex_test.Storage.Outbox.{Draft}
use codex_test.Storage.Tasks.{save_task_with_outbox_event}
use codex_test.World.{WorldModel, bump_domain, persist_revisions}
use codex_test.Events.{EventStore, enqueue_outbox}

pub record TaskRuntime : Type 0 where
  pub world : WorldModel
  pub events : EventStore
  pub tasks : Dict Task

-- The id and the time of an event.
pub record Stamp : Type 0 where
  pub event_id : String
  pub at : ℕ

-- `self.tasks[task_id]`
abbrev pub or_key_error : Option Task → Exec TaskRuntime Task
or_key_error none = raise key_error
or_key_error (some t) = pure t

abbrev pub find_task : String → Exec TaskRuntime Task
find_task task_id r = or_key_error (lookup task_id r.tasks) r

abbrev pub put_task : String → Task → TaskRuntime → TaskRuntime
put_task task_id t r = record r { tasks = insert task_id t r.tasks }

-- The second half of `_touch`: the revision of the domain "tasks" goes up and is saved.
unfoldable pub touch_world : WorldModel → WorldModel
unfolding bump_domain persist_revisions
touch_world w = persist_revisions (bump_domain "tasks" w).1

abbrev pub touched : Task → Task
touched t = record t { revision = t.revision + 1 }

abbrev pub draft : String → String → Task → Dict Value → Draft
draft event_type actor t payload = record {
  event_type = event_type;
  actor = actor;
  workspace_id = t.workspace_id;
  task_id = some t.task_id;
  operation_id = none;
  object_refs = [];
  payload = payload;
  causation_id = none;
  correlation_id = none;
  learning_allowed = true;
}

abbrev record_with : Option Store → Task → Draft → Stamp → TaskRuntime → TaskRuntime
record_with none t d stamp r = record r {
  events = (enqueue_outbox d stamp.event_id stamp.at r.events).1;
}
record_with (some s) t d stamp r =
    let w = r.world in
    record r {
      world = record w {
        persistence = some (save_task_with_outbox_event t d stamp.event_id stamp.at s).1;
      };
    }

-- `_record`
unfoldable pub record_event : Task → Draft → Stamp → TaskRuntime → TaskRuntime
unfolding save_task_with_outbox_event
record_event t d stamp r = record_with r.world.persistence t d stamp r

-- A method's last lines: the task is touched and recorded.
unfoldable pub touch_and_record : String → Task → (Task → Draft) → Stamp → Exec TaskRuntime Task
touch_and_record task_id t d stamp r =
    let u = touched t in
    (
      ok u,
      record_event u (d u) stamp (put_task task_id u (record r { world = touch_world r.world })),
    )

unfoldable pub create :
    String
    → String
    → List String
    → String
    → List String
    → String
    → ℤ
    → Option TaskBudget
    → Stamp
    → Exec TaskRuntime Task
create task_id goal success_criteria workspace_id constraints lane priority budget stamp r =
    let t : Task = record {
      task_id = task_id;
      workspace_id = workspace_id;
      goal = goal;
      success_criteria = success_criteria;
      constraints = constraints;
      state = created;
      desired_state = created;
      phase = observing;
      priority = priority;
      lane = lane;
      queued_at = none;
      wait_reason = none;
      budget = (elim budget [ none ↦ default_budget | some b ↦ b ]);
      revision = 1;
    } in
    let payload = ("goal", text goal) ∷ ("workspace_id", text workspace_id) ∷ [] in
    (
      ok t,
      record_event t (draft "task.created" "engine" t payload) stamp
          (put_task task_id t (record r { world = touch_world r.world })),
    )

abbrev pub state_payload : String → Task → Dict Value
state_payload key t = (key, text (task_state_value t.state)) ∷ []

abbrev pub queued_task : ℕ → Task → Task
queued_task at t = record t { state = queued; desired_state = running; queued_at = some at }

abbrev pub queue_draft : ℕ → Task → Draft
queue_draft at t = draft "task.queued" "engine" t (
    ("lane", text t.lane) ∷ ("priority", number t.priority) ∷ ("queued_at", number (ℤ.pos at)) ∷ [])

-- `at` is the time of queueing.
abbrev pub queue_found : String → ℕ → Stamp → Task → Exec TaskRuntime Task
queue_found task_id at stamp t =
    if is_terminal t.state
    then raise value_error
    else touch_and_record task_id (queued_task at t) (queue_draft at) stamp

unfoldable pub queue : String → ℕ → Stamp → Exec TaskRuntime Task
queue task_id at stamp = find_task task_id >>= queue_found task_id at stamp

abbrev pub wait_found : String → String → String → Stamp → Task → Exec TaskRuntime Task
wait_found task_id reason event_type stamp t =
    touch_and_record task_id (record t { state = waiting; wait_reason = some reason })
      (λ u. draft event_type "engine" u (("reason", text reason) ∷ state_payload "state" u)) stamp

unfoldable pub wait : String → String → String → Stamp → Exec TaskRuntime Task
wait task_id reason event_type stamp =
    find_task task_id >>= wait_found task_id reason event_type stamp

abbrev pub or_same {ℓ} : {A : Type ℓ} → Option A → A → A
or_same none a = a
or_same (some b) a = b

abbrev pub phase_payload : Task → Dict Value
phase_payload t = ("phase", text (task_phase_value t.phase)) ∷ []

abbrev pub update_found :
    String
    → Option TaskState
    → Option TaskPhase
    → String
    → String
    → Stamp
    → Task
    → Exec TaskRuntime Task
update_found task_id state phase event_type actor stamp t =
    if is_state (or_same state t.state) t.state && is_phase (or_same phase t.phase) t.phase
    then pure t
    else touch_and_record task_id
        (record t { state = or_same state t.state; phase = or_same phase t.phase })
        (λ u. draft event_type actor u (state_payload "state" u ++ phase_payload u)) stamp

unfoldable pub update_runtime_state :
    String → Option TaskState → Option TaskPhase → String → String → Stamp → Exec TaskRuntime Task
update_runtime_state task_id state phase event_type actor stamp =
    find_task task_id >>= update_found task_id state phase event_type actor stamp

-- The state that `control` sets, from the desired one and the present one.
unfoldable pub control_state : TaskState → TaskState → TaskState
control_state paused running = pausing
control_state paused cancelling = cancelling
control_state paused cancelled = cancelled
control_state paused state = paused
control_state cancelled running = cancelling
control_state cancelled pausing = cancelling
control_state cancelled state = cancelled
control_state running paused = running
control_state running pausing = running
control_state running waiting = running
control_state running queued = running
control_state running created = running
control_state _ state = state

unfoldable pub control_task : TaskState → Task → Task
unfolding control_state
control_task desired t = record t {
  desired_state = desired;
  state = control_state desired t.state;
  wait_reason = if is_state desired running then none else t.wait_reason;
}

abbrev pub control_payload : Task → Dict Value
control_payload u = ("desired", text (task_state_value u.desired_state)) ∷ state_payload "actual" u

abbrev pub control_found : String → TaskState → Stamp → Task → Exec TaskRuntime Task
control_found task_id desired stamp t =
    if is_terminal t.state
    then pure t
    else touch_and_record task_id (control_task desired t)
        (λ u. draft "task.control_requested" "user" u (control_payload u)) stamp

unfoldable pub control : String → TaskState → Stamp → Exec TaskRuntime Task
control task_id desired stamp = find_task task_id >>= control_found task_id desired stamp

-- The state that `settle_control` sets.
unfoldable pub settled_state : Bool → Bool → Task → TaskState
settled_state safe_boundary external_cancel_confirmed t =
    if is_state t.desired_state paused && safe_boundary
    then paused
    else if is_state t.desired_state cancelled && (safe_boundary || external_cancel_confirmed)
    then cancelled
    else t.state

abbrev pub settle_found : String → Bool → Bool → Stamp → Task → Exec TaskRuntime Task
settle_found task_id safe_boundary external_cancel_confirmed stamp t =
    let after = settled_state safe_boundary external_cancel_confirmed t in
    if is_state after t.state
    then pure t
    else touch_and_record task_id (record t { state = after })
        (λ u. draft "task.control_settled" "engine" u (control_payload u)) stamp

unfoldable pub settle_control : String → Bool → Bool → Stamp → Exec TaskRuntime Task
settle_control task_id safe_boundary external_cancel_confirmed stamp =
    find_task task_id >>= settle_found task_id safe_boundary external_cancel_confirmed stamp

-- `claim is None or not claim.passed or not claim.evidence_refs`
abbrev pub is_missing : Option GoalClaim → Bool
is_missing none = true
is_missing (some c) = not c.passed || is_nil c.evidence_refs

unfoldable pub missing_criteria : List String → Dict GoalClaim → List String
missing_criteria criteria claims = select (λ c. is_missing (lookup c claims)) criteria

abbrev items_of : List String → Items
items_of [] = nil
items_of (x ∷ xs) = cons (text x) (items_of xs)

abbrev pub evaluated : List String → Task → Task
evaluated [] t = record t { state = completed }
evaluated (c ∷ cs) t = record t { state = running; phase = replanning }

abbrev pub evaluate_draft : List String → Task → Draft
evaluate_draft missing u =
    draft "task.goal_evaluated" "verifier" u
      (("missing", array (items_of missing)) ∷ state_payload "state" u)

abbrev pub evaluate_found : String → Dict GoalClaim → Stamp → Task → Exec TaskRuntime Task
evaluate_found task_id claims stamp t =
    let missing = missing_criteria t.success_criteria claims in
    touch_and_record task_id (evaluated missing t) (evaluate_draft missing) stamp

unfoldable pub evaluate_goal : String → Dict GoalClaim → Stamp → Exec TaskRuntime Task
evaluate_goal task_id claims stamp = find_task task_id >>= evaluate_found task_id claims stamp
