-- ===== src/ControlIntents/Resolver.antt =====
-- `ControlIntentResolver` (liandanlu_native/control.py).
use codex_test.Prelude.{
  String, Bool, true, false, Option, none, some, List, [], ◌∷◌, ◌==◌, map, select, if◌then◌else◌,
  Result, ok, err, Exec,
}
use codex_test.Prelude.Dict.{values}
use codex_test.Models.{Task}
use codex_test.Models.States.{TaskState, queued, waiting, pausing, paused, cancelling}
use codex_test.Tasks.{TaskRuntime, Stamp, control}

pub data ControlIntent : Type 0 where
  stop_speaking pause_task resume_task cancel_task : ControlIntent

pub data Unresolved : Type 0 where
  no_matching_task ambiguous_task : Unresolved

pub record ControlResolution : Type 0 where
  pub intent : ControlIntent
  pub task_id : Option String
  pub needs_user : Bool
  pub reason : Option Unresolved

-- The states of the tasks that an intent may mean.
abbrev pub may_mean : ControlIntent → TaskState → Bool
may_mean resume_task paused = true
may_mean resume_task pausing = true
may_mean resume_task waiting = true
may_mean resume_task _ = false
may_mean _ TaskState.running = true
may_mean _ queued = true
may_mean _ waiting = true
may_mean _ pausing = true
may_mean _ cancelling = true
may_mean _ _ = false

abbrev pub candidates : ControlIntent → TaskRuntime → List String
candidates intent r =
    map (λ (t : Task). t.task_id) (select (λ t. may_mean intent t.state) (values r.tasks))

abbrev pub resolve_among : ControlIntent → List String → ControlResolution
resolve_among intent [] = record {
  intent = intent;
  task_id = none;
  needs_user = true;
  reason = some no_matching_task;
}
resolve_among intent (id ∷ []) = record {
  intent = intent;
  task_id = some id;
  needs_user = false;
  reason = none;
}
resolve_among intent (id ∷ other ∷ ids) = record {
  intent = intent;
  task_id = none;
  needs_user = true;
  reason = some ambiguous_task;
}

-- An empty text counts as no explicit task.
abbrev pub resolve_explicit : ControlIntent → Option String → TaskRuntime → ControlResolution
resolve_explicit intent none r = resolve_among intent (candidates intent r)
resolve_explicit intent (some id) r =
    if id == ""
    then resolve_among intent (candidates intent r)
    else record { intent = intent; task_id = some id; needs_user = false; reason = none }

unfoldable pub resolve_intent : ControlIntent → Option String → TaskRuntime → ControlResolution
resolve_intent stop_speaking explicit r = record {
  intent = stop_speaking;
  task_id = none;
  needs_user = false;
  reason = none;
}
resolve_intent intent explicit r = resolve_explicit intent explicit r

abbrev pub desired_of : ControlIntent → Option TaskState
desired_of stop_speaking = none
desired_of pause_task = some paused
desired_of resume_task = some TaskState.running
desired_of cancel_task = some TaskState.cancelled

abbrev some_task : Result Task × TaskRuntime → Result (Option Task) × TaskRuntime
some_task (ok t, r) = (ok (some t), r)
some_task (err x, r) = (err x, r)

abbrev apply_desired : Option TaskState → String → Stamp → Exec TaskRuntime (Option Task)
apply_desired none id stamp r = (ok none, r)
apply_desired (some desired) id stamp r = some_task (control id desired stamp r)

abbrev apply_to : Option String → ControlIntent → Stamp → Exec TaskRuntime (Option Task)
apply_to none intent stamp r = (ok none, r)
apply_to (some id) intent stamp r = apply_desired (desired_of intent) id stamp r

unfoldable pub apply : ControlResolution → Stamp → Exec TaskRuntime (Option Task)
apply c stamp r = if c.needs_user then (ok none, r) else apply_to c.task_id c.intent stamp r
