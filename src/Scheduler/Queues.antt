-- ===== src/Scheduler/Queues.antt =====
-- Which task `TaskScheduler.next_task` (liandanlu_native/runtime.py) takes from the queues.
use codex_test.Prelude.{
  ◌≡◌, refl, sym, ap, ◌∙◌, subst, String, true, Option, none, some, List, [], ◌∷◌, ◌++◌, inl, inr,
  arith, All, Bool-cases,
}
use codex_test.Prelude.Dict.{lookup}
use codex_test.Models.{Task}
use codex_test.Models.States.{queued, TaskState, is_state_iff}
use codex_test.Tasks.{TaskRuntime}
use codex_test.Scheduler.Heaps.{
  Item, TaskScheduler, may_start, pop_valid, then_background, next_task,
}

-- The id is that of a task that is queued and wanted running.
pub record IsWaiting (r : TaskRuntime) (id : String) : Type 0 where
  pub task : Task
  pub present : lookup id r.tasks ≡ some task
  pub queued_now : task.state ≡ queued
  pub wanted : task.desired_state ≡ TaskState.running

may_start-IsWaiting :
    (r : TaskRuntime) (id : String) (o : Option Task)
    → lookup id r.tasks ≡ o
    → may_start o ≡ true
    → IsWaiting r id
may_start-IsWaiting r id none e h = ground (arith, h)
may_start-IsWaiting r id (some t) e h = record {
  task = t;
  present = e;
  queued_now = (is_state_iff t.state queued).0 (ground (arith, h));
  wanted = (is_state_iff t.desired_state TaskState.running).0 (ground (arith, h));
}

IsWaiting-may_start :
    (r : TaskRuntime) (id : String) → IsWaiting r id → may_start (lookup id r.tasks) ≡ true
IsWaiting-may_start r id w =
    ap may_start w.present
    ∙ ground (
      arith,
      (is_state_iff w.task.state queued).1 w.queued_now,
      (is_state_iff w.task.desired_state TaskState.running).1 w.wanted,
    )

-- A heap whose items up to the one taken may not start.
pub record Popped (r : TaskRuntime) (heap : List Item) (id : String) (rest : List Item)
    : Type 0 where
  pub skipped : List Item
  pub item : Item
  pub split : heap ≡ skipped ++ item ∷ rest
  pub named : item.task_id ≡ id
  pub stale : All (λ (i : Item). IsWaiting r i.task_id → ⊥) skipped
  pub waiting : IsWaiting r id

pop_valid-some :
    (r : TaskRuntime) (heap : List Item) (id : String)
    → (pop_valid r heap).0 ≡ some id
    → Popped r heap id (pop_valid r heap).1
unfolding pop_valid
pop_valid-some r [] id = λ h. ground (arith, h)
pop_valid-some r (i ∷ heap) id = elim (Bool-cases (may_start (lookup i.task_id r.tasks))) [
  | inl good ↦ rw good (λ h.
      let same : i.task_id ≡ id = ground (arith, h) in
      record {
        skipped = [];
        item = i;
        split = refl;
        named = same;
        stale = tt;
        waiting = subst (IsWaiting r) same (may_start-IsWaiting r i.task_id _ refl good);
      })
  | inr bad ↦ rw bad (λ h.
      let rest = pop_valid-some r heap id h in
      record {
        skipped = i ∷ rest.skipped;
        item = rest.item;
        split = ap (λ t. i ∷ t) rest.split;
        named = rest.named;
        stale = (λ w. ground (arith, bad, IsWaiting-may_start r i.task_id w), rest.stale);
        waiting = rest.waiting;
      })
]

pop_valid-none :
    (r : TaskRuntime) (heap : List Item)
    → (pop_valid r heap).0 ≡ none
    → ((pop_valid r heap).1 ≡ []) × All (λ (i : Item). IsWaiting r i.task_id → ⊥) heap
unfolding pop_valid
pop_valid-none r [] = λ h. (refl, tt)
pop_valid-none r (i ∷ heap) = elim (Bool-cases (may_start (lookup i.task_id r.tasks))) [
  | inl good ↦ rw good (λ h. ground (arith, h))
  | inr bad ↦ rw bad (λ h.
      let rest = pop_valid-none r heap h in
      (rest.0, (λ w. ground (arith, bad, IsWaiting-may_start r i.task_id w), rest.1)))
]

-- Where the task comes from: the interactive heap, or the background one if the interactive one has no
-- task to start.
pub data Taken (s t : TaskScheduler) (id : String) : Type 0 where
  from_interactive :
      Popped s.tasks s.interactive id t.interactive → t.background ≡ s.background → Taken s t id
  from_background :
      All (λ (i : Item). IsWaiting s.tasks i.task_id → ⊥) s.interactive
      → t.interactive ≡ []
      → Popped s.tasks s.background id t.background
      → Taken s t id

background-Taken :
    (o : Option String × List Item) (s : TaskScheduler) (id : String)
    → pop_valid s.tasks s.interactive ≡ o
    → (then_background o s).0 ≡ some id
    → Taken s (then_background o s).1 id
background-Taken (some k, heap) s id e h =
    let same : k ≡ id = ground (arith, h) in
    from_interactive
      (subst (Popped s.tasks s.interactive id) (ap (λ o. o.1) e)
        (pop_valid-some s.tasks s.interactive id (ap (λ o. o.0) e ∙ h)))
      refl
background-Taken (none, heap) s id e h =
    let none_left = pop_valid-none s.tasks s.interactive (ap (λ o. o.0) e) in
    from_background none_left.1 (ap (λ o. o.1) (sym e) ∙ none_left.0)
      (pop_valid-some s.tasks s.background id h)

background_none :
    (o : Option String × List Item) (s : TaskScheduler)
    → pop_valid s.tasks s.interactive ≡ o
    → (then_background o s).0 ≡ none
    → All (λ (i : Item). IsWaiting s.tasks i.task_id → ⊥) s.interactive
      × All (λ (i : Item). IsWaiting s.tasks i.task_id → ⊥) s.background
background_none (some k, heap) s e h = ground (arith, h)
background_none (none, heap) s e h = (
  (pop_valid-none s.tasks s.interactive (ap (λ o. o.0) e)).1,
  (pop_valid-none s.tasks s.background h).1,
)

-- The next task is queued and wanted running, is taken from the interactive heap as long as that one has such
-- a task, and every item before it in its heap is of a task that cannot start; None means that no item
-- of either heap is of a task that can.
pub next_task_lem :
    (s : TaskScheduler)
    → ((id : String) → (next_task s).0 ≡ some id → Taken s (next_task s).1 id)
      × ((next_task s).0 ≡ none
          → All (λ (i : Item). IsWaiting s.tasks i.task_id → ⊥) s.interactive
            × All (λ (i : Item). IsWaiting s.tasks i.task_id → ⊥) s.background)
unfolding next_task
next_task_lem s = (
  λ id h. background-Taken (pop_valid s.tasks s.interactive) s id refl h,
  λ h. background_none (pop_valid s.tasks s.interactive) s refl h,
)
