-- ===== src/ControlIntents/Choice.antt =====
-- Which task an intent that names none is about (liandanlu_native/control.py).
use codex_test.Prelude.{
  ◌≡◌, refl, sym, subst, String, Bool, true, false, none, some, List, [], ◌∷◌, arith, map, select,
  All, inl,
}
use codex_test.Prelude.Dict.{values}
use codex_test.Models.{Task}
use codex_test.Models.States.{
  TaskState, created, queued, waiting, pausing, paused, cancelling, completed, is_terminal,
}
use codex_test.Storage.TaskLeases.Order.{IsOneOf}
use codex_test.Leases.Claims.{IsOneOf-select, All-select}
use codex_test.Tasks.{TaskRuntime}
use codex_test.ControlIntents.Resolver.{
  ControlIntent, stop_speaking, pause_task, resume_task, cancel_task, may_mean, candidates,
  resolve_among, resolve_intent,
}

live : (intent : ControlIntent) (s : TaskState) → may_mean intent s ≡ true → is_terminal s ≡ false
unfolding is_terminal
live intent created h = refl
live intent queued h = refl
live intent TaskState.running h = refl
live intent waiting h = refl
live intent pausing h = refl
live intent paused h = refl
live intent cancelling h = refl
live intent TaskState.blocked h = refl
live stop_speaking completed h = ground (arith, h)
live pause_task completed h = ground (arith, h)
live resume_task completed h = ground (arith, h)
live cancel_task completed h = ground (arith, h)
live stop_speaking TaskState.failed h = ground (arith, h)
live pause_task TaskState.failed h = ground (arith, h)
live resume_task TaskState.failed h = ground (arith, h)
live cancel_task TaskState.failed h = ground (arith, h)
live stop_speaking TaskState.cancelled h = ground (arith, h)
live pause_task TaskState.cancelled h = ground (arith, h)
live resume_task TaskState.cancelled h = ground (arith, h)
live cancel_task TaskState.cancelled h = ground (arith, h)

one_of_one :
    (intent : ControlIntent) (ids : List String) (id : String)
    → (resolve_among intent ids).task_id ≡ some id
    → ids ≡ id ∷ []
one_of_one intent [] id h = ground (arith, h)
one_of_one intent (x ∷ []) id h = ground (arith, h)
one_of_one intent (x ∷ y ∷ ids) id h = ground (arith, h)

named_by :
    (ts : List Task) (id : String)
    → map (λ (t : Task). t.task_id) ts ≡ id ∷ []
    → (t : Task) × (ts ≡ t ∷ []) × (t.task_id ≡ id)
named_by [] id h = ground (arith, h)
named_by (t ∷ []) id h = (t, refl, ground (arith, h))
named_by (t ∷ u ∷ ts) id h = ground (arith, h)

chosen :
    (intent : ControlIntent) (r : TaskRuntime) (id : String)
    → (resolve_intent intent none r).task_id ≡ some id
    → candidates intent r ≡ id ∷ []
unfolding resolve_intent
chosen stop_speaking r id h = ground (arith, h)
chosen pause_task r id h = one_of_one pause_task (candidates pause_task r) id h
chosen resume_task r id h = one_of_one resume_task (candidates resume_task r) id h
chosen cancel_task r id h = one_of_one cancel_task (candidates cancel_task r) id h

-- The only task that an intent can mean.
pub record OnlyTask (intent : ControlIntent) (r : TaskRuntime) (id : String) : Type 0 where
  pub task : Task
  pub present : IsOneOf task (values r.tasks)
  pub named : task.task_id ≡ id
  pub meant : may_mean intent task.state ≡ true
  pub not_ended : is_terminal task.state ≡ false
  pub only : All (λ u. may_mean intent u.state ≡ true → u ≡ task) (values r.tasks)

-- An intent that names no task is resolved to a task only if it is the one task of the runtime whose state
-- the intent can be about; that task has not ended. The resolver never guesses among several.
pub resolve_intent_lem :
    (intent : ControlIntent) (r : TaskRuntime) (id : String)
    → (resolve_intent intent none r).task_id ≡ some id
    → OnlyTask intent r id
resolve_intent_lem intent r id h =
    let p : Task → Bool = λ t. may_mean intent t.state in
    let one = named_by (select p (values r.tasks)) id (chosen intent r id h) in
    let t = one.0 in
    let here = IsOneOf-select p t (values r.tasks) (subst (IsOneOf t) (sym one.1) (inl refl)) in
    record {
      task = t;
      present = here.0;
      named = one.2;
      meant = here.1;
      not_ended = live intent t.state here.1;
      only =
          All-select p (λ u. u ≡ t) (values r.tasks)
            (subst (All (λ u. u ≡ t)) (sym one.1) (refl, tt));
    }
