-- ===== src/Scheduler/Heaps.antt =====
-- The methods of `TaskScheduler` (liandanlu_native/runtime.py). A heap of `heapq` is the sorted list of its
-- items, of which `heappop` takes the first. The runtime's store stands in its world model.
use codex_test.Prelude.{
  ℕ, ◌+◌, ◌-◌, String, Bool, true, false, ◌&&◌, ◌||◌, Option, none, some, List, [], ◌∷◌, ◌==◌,
  is_some, ltb, nat_eq, if◌then◌else◌, Result, ok, err, Exec, value_error,
}
use codex_test.Prelude.Dict.{Dict, lookup, insert, values}
use codex_test.Prelude.Int.{ℤ, ltb_ℤ, eq_ℤ, pos_part, neg_part, not_positive}
use codex_test.Prelude.Texts.{text_lt}
use codex_test.Models.{Task, TaskLease}
use codex_test.Models.States.{queued, TaskState, is_state}
use codex_test.Storage.{Store}
use codex_test.Storage.TaskLeases.{
  claim_next_task, renew_task_lease, release_task_lease, next_generation, is_owned, is_held,
}
use codex_test.Tasks.{TaskRuntime, Stamp, queue}

-- `(-priority, queued_at, task_id)`
pub record Item : Type 0 where
  pub priority : ℤ
  pub queued_at : ℕ
  pub task_id : String

pub record TaskScheduler : Type 0 where
  pub tasks : TaskRuntime
  pub interactive : List Item
  pub background : List Item
  pub leases : Dict TaskLease

unfoldable pub item_before : Item → Item → Bool
item_before a b =
    ltb_ℤ b.priority a.priority
    || (eq_ℤ a.priority b.priority
        && (ltb a.queued_at b.queued_at
            || (nat_eq a.queued_at b.queued_at && text_lt a.task_id b.task_id)))

-- `heapq.heappush`
unfoldable pub push_item : Item → List Item → List Item
unfolding item_before
push_item item [] = item ∷ []
push_item item (i ∷ heap) = if item_before item i then item ∷ i ∷ heap else i ∷ push_item item heap

abbrev pub time_of : Option ℕ → ℕ → ℕ
time_of none now = now
time_of (some at) now = at

-- `_push`; `now` is what `now()` returns.
unfoldable pub push : Task → ℕ → TaskScheduler → TaskScheduler
unfolding push_item
push t now s =
    let item : Item = record {
      priority = t.priority;
      queued_at = time_of t.queued_at now;
      task_id = t.task_id;
    } in
    if t.lane == "interactive"
    then record s { interactive = push_item item s.interactive }
    else record s { background = push_item item s.background }

abbrev pub is_runnable : Task → Bool
is_runnable t = is_state t.state queued && is_state t.desired_state TaskState.running

unfoldable pub push_all : List Task → ℕ → TaskScheduler → TaskScheduler
unfolding push
push_all [] now s = s
push_all (t ∷ ts) now s =
    push_all ts now (if is_runnable t && is_some t.queued_at then push t now s else s)

unfoldable pub rebuild_scheduler : TaskRuntime → TaskScheduler
unfolding push_all
rebuild_scheduler r =
    push_all (values r.tasks) 0
      (record { tasks = r; interactive = []; background = []; leases = [] })

abbrev pushed : Result Task × TaskRuntime → ℕ → TaskScheduler → Result Task × TaskScheduler
pushed (err x, r) now s = (err x, record s { tasks = r })
pushed (ok t, r) now s = (ok t, push t now (record s { tasks = r }))

-- `at` is the time of queueing.
unfoldable pub submit : String → ℕ → Stamp → Exec TaskScheduler Task
submit id at stamp s = pushed (queue id at stamp s.tasks) at s

abbrev pub may_start : Option Task → Bool
may_start none = false
may_start (some t) = is_runnable t

-- `_pop_valid`
unfoldable pub pop_valid : TaskRuntime → List Item → Option String × List Item
pop_valid r [] = (none, [])
pop_valid r (i ∷ heap) =
    let rest = pop_valid r heap in
    if may_start (lookup i.task_id r.tasks) then (some i.task_id, heap) else rest

abbrev pub then_background :
    Option String × List Item → TaskScheduler → Option String × TaskScheduler
then_background (some id, heap) s = (some id, record s { interactive = heap })
then_background (none, heap) s =
    let found = pop_valid s.tasks s.background in
    (found.0, record s { interactive = heap; background = found.1 })

unfoldable pub next_task : TaskScheduler → Option String × TaskScheduler
unfolding pop_valid
next_task s = then_background (pop_valid s.tasks s.interactive) s

abbrev claimed :
    String → ℤ → ℕ → Option String × TaskScheduler → Result (Option TaskLease) × TaskScheduler
claimed owner lease_seconds ts (none, s) = (ok none, s)
claimed owner lease_seconds ts (some id, s) =
    let lease : TaskLease = record {
      task_id = id;
      owner_id = owner;
      generation = next_generation (lookup id s.leases);
      claimed_at = ts;
      lease_until = ts + pos_part lease_seconds;
    } in
    (ok (some lease), record s { leases = insert id lease s.leases })

abbrev set_store : Store → TaskScheduler → TaskScheduler
set_store st s =
    let r = s.tasks in
    let w = r.world in record s { tasks = record r { world = record w { persistence = some st } } }

abbrev stored_lease :
    TaskScheduler → Result (Option TaskLease) × Store → Result (Option TaskLease) × TaskScheduler
stored_lease s (l, st) = (l, set_store st s)

abbrev claim_with :
    Option Store → String → ℤ → ℕ → TaskScheduler → Result (Option TaskLease) × TaskScheduler
claim_with none owner lease_seconds ts s = claimed owner lease_seconds ts (next_task s)
claim_with (some st) owner lease_seconds ts s =
    stored_lease s (claim_next_task owner lease_seconds ts st)

unfoldable pub claim_next :
    String → ℤ → ℕ → TaskScheduler → Result (Option TaskLease) × TaskScheduler
claim_next owner lease_seconds ts s =
    if not_positive lease_seconds
    then (err value_error, s)
    else claim_with s.tasks.world.persistence owner lease_seconds ts s

-- `renew` without a store does not ask for a positive `lease_seconds`; a time before 0 is 0 here.
abbrev renew_with :
    Option Store → TaskLease → ℤ → ℕ → TaskScheduler → Result (Option TaskLease) × TaskScheduler
renew_with (some st) lease lease_seconds ts s =
    stored_lease s (renew_task_lease lease lease_seconds ts st)
renew_with none lease lease_seconds ts s =
    let current = lookup lease.task_id s.leases in
    let renewed = record lease {
      lease_until = ts + pos_part lease_seconds - neg_part lease_seconds;
    } in
    if is_owned current lease.owner_id lease.generation && is_held current ts
    then (ok (some renewed), record s { leases = insert lease.task_id renewed s.leases })
    else (ok none, s)

unfoldable pub renew : TaskLease → ℤ → ℕ → TaskScheduler → Result (Option TaskLease) × TaskScheduler
renew lease lease_seconds ts s = renew_with s.tasks.world.persistence lease lease_seconds ts s

abbrev ended : Option TaskLease → String → TaskScheduler → TaskScheduler
ended none id s = s
ended (some l) id s = record s { leases = insert id (record l { lease_until = 0 }) s.leases }

abbrev stored_release : TaskScheduler → Bool × Store → Bool × TaskScheduler
stored_release s (b, st) = (b, set_store st s)

abbrev release_with : Option Store → TaskLease → TaskScheduler → Bool × TaskScheduler
release_with (some st) lease s = stored_release s (release_task_lease lease st)
release_with none lease s =
    let current = lookup lease.task_id s.leases in
    if is_owned current lease.owner_id lease.generation
    then (true, ended current lease.task_id s)
    else (false, s)

unfoldable pub release : TaskLease → TaskScheduler → Bool × TaskScheduler
release lease s = release_with s.tasks.world.persistence lease s
