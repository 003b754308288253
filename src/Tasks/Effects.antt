-- ===== src/Tasks/Effects.antt =====
-- What the last lines of each method of `TaskRuntime` do (liandanlu_native/runtime.py).
use codex_test.Prelude.{
  ℕ, ◌+◌, ◌≡◌, ◌≢◌, refl, ap, ◌∙◌, String, none, some, inl, inr, arith, length, length-snoc, eq_iff,
  Option-cases, ok,
}
use codex_test.Prelude.Dict.{lookup, insert, lookup-insert, lookup-insert_self}
use codex_test.Models.{Task}
use codex_test.Models.Revisions.{WorldRevisions, bump, attribute, set_attribute}
use codex_test.Storage.{Store}
use codex_test.Storage.Outbox.{Draft}
use codex_test.Storage.Worlds.{save_world_revisions}
use codex_test.Storage.Tasks.{save_task_with_outbox_event}
use codex_test.World.{WorldModel}
use codex_test.Events.{EventStore, enqueue_outbox}
use codex_test.Tasks.Runtime.{
  TaskRuntime, Stamp, record_event, touch_world, touched, touch_and_record, put_task,
}

-- The events waiting for dispatch, in the store or in memory.
abbrev pub outbox_size : TaskRuntime → ℕ
outbox_size r = elim r.world.persistence [
  | none ↦ length r.events.outbox
  | some s ↦ length s.event_outbox
]

-- The world model and the event store share one authority, as `__post_init__` checks; the runtime
-- writes to it through the world model, so the event store's own lists are used without one.
abbrev pub IsShared : TaskRuntime → Type 0
IsShared r = r.events.persistence ≡ none

pub saved-outbox :
    (t : Task) (d : Draft) (id : String) (at : ℕ) (s : Store)
    → length (save_task_with_outbox_event t d id at s).1.event_outbox ≡ length s.event_outbox + 1
unfolding save_task_with_outbox_event
saved-outbox t d id at s = length-snoc s.event_outbox _

pub saved-tasks :
    (t : Task) (d : Draft) (id : String) (at : ℕ) (s : Store)
    → (save_task_with_outbox_event t d id at s).1.tasks ≡ insert t.task_id t s.tasks
unfolding save_task_with_outbox_event
saved-tasks t d id at s = refl

enqueued-outbox :
    (d : Draft) (id : String) (at : ℕ) (e : EventStore)
    → e.persistence ≡ none
    → (length (enqueue_outbox d id at e).1.outbox ≡ length e.outbox + 1)
      × ((enqueue_outbox d id at e).1.persistence ≡ none)
unfolding enqueue_outbox
enqueued-outbox d id at e h = (ground (arith, h, length-snoc e.outbox (id, d)), ground (arith, h))

-- Recording an event adds one to the outbox of the authority, and touches no task and no counter.
pub record_event-outbox :
    (t : Task) (d : Draft) (stamp : Stamp) (r : TaskRuntime)
    → IsShared r
    → (outbox_size (record_event t d stamp r) ≡ outbox_size r + 1)
      × IsShared (record_event t d stamp r)
unfolding record_event
record_event-outbox t d stamp r h = elim (Option-cases r.world.persistence) [
  | inl alone ↦
      let added = enqueued-outbox d stamp.event_id stamp.at r.events h in
      (ground (arith, alone, added), ground (arith, alone, added))
  | inr (s, e) ↦
      (ground (arith, e, saved-outbox t d stamp.event_id stamp.at s), ground (arith, e, h))
]

pub record_event-others :
    (t : Task) (d : Draft) (stamp : Stamp) (r : TaskRuntime)
    → ((record_event t d stamp r).tasks ≡ r.tasks)
      × ((record_event t d stamp r).world.revisions ≡ r.world.revisions)
unfolding record_event
record_event-others t d stamp r = (ground arith, ground arith)

pub touch_world-revisions :
    (w : WorldModel)
    → ((touch_world w).revisions.tasks ≡ w.revisions.tasks + 1)
      × ((touch_world w).revisions.global_revision ≡ w.revisions.global_revision + 1)
unfolding touch_world bump attribute set_attribute
touch_world-revisions w = (refl, refl)

touch_world-outbox :
    (r : TaskRuntime) → outbox_size (record r { world = touch_world r.world }) ≡ outbox_size r
unfolding touch_world bump attribute set_attribute save_world_revisions
touch_world-outbox r = elim (Option-cases r.world.persistence) [
  | inl alone ↦ ground (arith, alone)
  | inr (s, e) ↦ ground (arith, e)
]

-- What a method that touches a task has done: one event, one revision more, one task written.
pub record Touched (task_id : String) (t : Task) (r r' : TaskRuntime) : Type 0 where
  pub written : lookup task_id r'.tasks ≡ some t
  pub others : (k : String) → k ≢ task_id → lookup k r'.tasks ≡ lookup k r.tasks
  pub one_event : outbox_size r' ≡ outbox_size r + 1
  pub one_revision : r'.world.revisions.tasks ≡ r.world.revisions.tasks + 1
  pub shared : IsShared r'

-- The store of the task and the record of its event, on a runtime whose world has been touched.
pub stored_and_recorded :
    (task_id : String) (t : Task) (d : Draft) (stamp : Stamp) (r : TaskRuntime)
    → IsShared r
    → Touched task_id t r
        (record_event t d stamp (put_task task_id t (record r { world = touch_world r.world })))
stored_and_recorded task_id t d stamp r h =
    let mid = put_task task_id t (record r { world = touch_world r.world }) in
    let same = record_event-others t d stamp mid in
    let sized = record_event-outbox t d stamp mid h in
    record {
      written = ap (lookup task_id) same.0 ∙ lookup-insert_self task_id t r.tasks;
      others = λ k ne.
          ap (lookup k) same.0
          ∙ ground (arith, lookup-insert task_id k t r.tasks, eq_iff task_id k, ne);
      one_event = sized.0 ∙ ap (λ n. n + 1) (touch_world-outbox r);
      one_revision =
          ap (λ (v : WorldRevisions). v.tasks) same.1 ∙ (touch_world-revisions r.world).0;
      shared = sized.1;
    }

pub touch_and_record_lem :
    (task_id : String) (t : Task) (d : Task → Draft) (stamp : Stamp) (r : TaskRuntime)
    → IsShared r
    → ((touch_and_record task_id t d stamp r).0 ≡ ok (touched t))
      × Touched task_id (touched t) r (touch_and_record task_id t d stamp r).1
unfolding touch_and_record
touch_and_record_lem task_id t d stamp r h =
    (refl, stored_and_recorded task_id (touched t) (d (touched t)) stamp r h)
