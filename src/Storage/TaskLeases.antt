-- ===== src/Storage/TaskLeases.antt =====
-- liandanlu_native/storage.py: how workers claim, renew and release tasks. What `now()` returns is the
-- argument `ts`.
pub mod Order
use codex_test.Prelude.{
  ℕ, ◌+◌, String, Bool, true, false, ◌&&◌, ◌||◌, Option, none, some, List, [], ◌∷◌, ◌==◌, ltb, leb,
  nat_eq, is_some, select, if◌then◌else◌, Result, ok, err, value_error,
}
use codex_test.Prelude.Dict.{Dict, lookup, insert, values}
use codex_test.Prelude.Int.{ℤ, pos_part, not_positive}
use codex_test.Models.{Task, TaskLease}
use codex_test.Models.States.{TaskState, queued, is_state}
use codex_test.Storage.Tables.{Store}
use Order.{first_task}

-- `l.task_id IS NULL OR l.lease_until<=?`
abbrev pub is_free : Option TaskLease → ℕ → Bool
is_free none ts = true
is_free (some l) ts = leb l.lease_until ts

-- The WHERE clause of the claim, with the joined lease.
unfoldable pub is_claimable : Store → ℕ → Task → Bool
is_claimable s ts t =
    is_state t.state queued
    && is_state t.desired_state TaskState.running
    && is_some t.queued_at
    && is_free (lookup t.task_id s.task_leases) ts

unfoldable pub claimable : Store → ℕ → List Task
claimable s ts = select (is_claimable s ts) (values s.tasks)

-- `1 if row["generation"] is None else int(row["generation"]) + 1`
abbrev pub next_generation : Option TaskLease → ℕ
next_generation none = 1
next_generation (some l) = l.generation + 1

abbrev pub claim_lease : String → ℤ → ℕ → Store → Task → TaskLease
claim_lease owner lease_seconds ts s t = record {
  task_id = t.task_id;
  owner_id = owner;
  generation = next_generation (lookup t.task_id s.task_leases);
  claimed_at = ts;
  lease_until = ts + pos_part lease_seconds;
}

abbrev claim_row : String → ℤ → ℕ → Store → Option Task → Result (Option TaskLease) × Store
claim_row owner lease_seconds ts s none = (ok none, s)
claim_row owner lease_seconds ts s (some t) =
    let lease = claim_lease owner lease_seconds ts s t in
    (ok (some lease), record s { task_leases = insert t.task_id lease s.task_leases })

unfoldable pub claim_next_task : String → ℤ → ℕ → Store → Result (Option TaskLease) × Store
claim_next_task owner lease_seconds ts s =
    if owner == ""
    then (err value_error, s)
    else if not_positive lease_seconds
    then (err value_error, s)
    else claim_row owner lease_seconds ts s (first_task (claimable s ts))

-- WHERE task_id=? AND owner_id=? AND generation=?, on the row of the task
abbrev pub is_owned : Option TaskLease → String → ℕ → Bool
is_owned none owner generation = false
is_owned (some l) owner generation = l.owner_id == owner && nat_eq l.generation generation

-- `lease_until > ts`
abbrev pub is_held : Option TaskLease → ℕ → Bool
is_held none ts = false
is_held (some l) ts = ltb ts l.lease_until

abbrev set_until : ℕ → Option TaskLease → String → Store → Store
set_until until none task s = s
set_until until (some l) task s = record s {
  task_leases = insert task (record l { lease_until = until }) s.task_leases;
}

unfoldable pub renew_task_lease : TaskLease → ℤ → ℕ → Store → Result (Option TaskLease) × Store
renew_task_lease lease lease_seconds ts s =
    if not_positive lease_seconds
    then (err value_error, s)
    else let until = ts + pos_part lease_seconds in
      let row = lookup lease.task_id s.task_leases in
      if is_owned row lease.owner_id lease.generation && is_held row ts
      then (ok (some (record lease { lease_until = until })), set_until until row lease.task_id s)
      else (ok none, s)

unfoldable pub release_task_lease : TaskLease → Store → Bool × Store
release_task_lease lease s =
    let row = lookup lease.task_id s.task_leases in
    if is_owned row lease.owner_id lease.generation
    then (true, set_until 0 row lease.task_id s)
    else (false, s)

unfoldable pub get_task_lease : String → Store → Option TaskLease
get_task_lease task s = lookup task s.task_leases

unfoldable pub validate_task_lease_identity : String → String → ℕ → ℕ → Store → Bool
validate_task_lease_identity task owner generation ts s =
    let row = lookup task s.task_leases in is_owned row owner generation && is_held row ts

unfoldable pub validate_task_lease : TaskLease → ℕ → Store → Bool
validate_task_lease lease ts s =
    let row = lookup lease.task_id s.task_leases in
    is_owned row lease.owner_id lease.generation && is_held row ts
