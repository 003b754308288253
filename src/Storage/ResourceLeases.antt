-- ===== src/Storage/ResourceLeases.antt =====
-- liandanlu_native/storage.py: the resource leases in their table. A row has the columns of a lease,
-- those of its request among them. What `now()` returns is the argument `ts`.
use codex_test.Prelude.{
  ℕ, ◌+◌, String, Bool, true, false, not, ◌&&◌, ◌||◌, Option, none, some, List, [], ◌∷◌, ◌==◌, ltb,
  nat_eq, if◌then◌else◌, Result, ok, err, value_error,
}
use codex_test.Prelude.Dict.{Dict, lookup, insert}
use codex_test.Prelude.Int.{ℤ, pos_part, not_positive}
use codex_test.Models.{ResourceRequest, ResourceCapacity, ResourceLease}
use codex_test.Storage.Tables.{Store}
use codex_test.Resources.Usage.{exceeds, overcommits}

-- `existing is not None and existing["lease_until"] > ts`
abbrev pub is_held : Option ResourceLease → ℕ → Bool
is_held none ts = false
is_held (some l) ts = ltb ts l.lease_until

-- `1 if existing is None else int(existing["generation"]) + 1`
abbrev pub next_generation : Option ResourceLease → ℕ
next_generation none = 1
next_generation (some l) = l.generation + 1

-- SELECT * FROM resource_leases WHERE lease_until>ts AND task_id<>task
unfoldable pub active_rows : ℕ → String → Dict ResourceLease → List ResourceLease
active_rows ts task [] = []
active_rows ts task ((k, l) ∷ rows) =
    let rest = active_rows ts task rows in
    if ltb ts l.lease_until && not (k == task) then l ∷ rest else rest

-- The lease that an admitted request is given.
abbrev pub new_lease :
    String → String → ResourceRequest → ℤ → ℕ → Option ResourceLease → ResourceLease
new_lease task owner request lease_seconds ts existing = record {
  task_id = task;
  owner_id = owner;
  generation = next_generation existing;
  request = request;
  claimed_at = ts;
  lease_until = ts + pos_part lease_seconds;
}

-- INSERT … ON CONFLICT(task_id) DO UPDATE SET all the other columns
abbrev pub put_lease : ResourceLease → Store → Store
put_lease l s = record s { resource_leases = insert l.task_id l s.resource_leases }

unfoldable pub acquire_resource_lease :
    String
    → String
    → ResourceRequest
    → ResourceCapacity
    → ℤ
    → ℕ
    → Store
    → Result (Option ResourceLease) × Store
acquire_resource_lease task owner request capacity lease_seconds ts s =
    if task == "" || owner == ""
    then (err value_error, s)
    else if not_positive lease_seconds
    then (err value_error, s)
    else if exceeds request capacity
    then (ok none, s)
    else let existing = lookup task s.resource_leases in
      if is_held existing ts
      then (ok none, s)
      else if overcommits (active_rows ts task s.resource_leases) request capacity
      then (ok none, s)
      else let lease = new_lease task owner request lease_seconds ts existing in
        (ok (some lease), put_lease lease s)

-- WHERE task_id=? AND owner_id=? AND generation=?, on the row of the task
abbrev pub is_owned : Option ResourceLease → String → ℕ → Bool
is_owned none owner generation = false
is_owned (some l) owner generation = l.owner_id == owner && nat_eq l.generation generation

-- UPDATE resource_leases SET lease_until=? on the row of the task
abbrev set_until : ℕ → Option ResourceLease → String → Store → Store
set_until until none task s = s
set_until until (some l) task s = record s {
  resource_leases = insert task (record l { lease_until = until }) s.resource_leases;
}

-- The renewed lease repeats what the caller presents; the row keeps its own request.
unfoldable pub renew_resource_lease :
    ResourceLease → ℤ → ℕ → Store → Result (Option ResourceLease) × Store
renew_resource_lease lease lease_seconds ts s =
    if not_positive lease_seconds
    then (err value_error, s)
    else let until = ts + pos_part lease_seconds in
      let row = lookup lease.task_id s.resource_leases in
      if is_owned row lease.owner_id lease.generation && is_held row ts
      then (ok (some (record lease { lease_until = until })), set_until until row lease.task_id s)
      else (ok none, s)

unfoldable pub release_resource_lease : ResourceLease → Store → Bool × Store
release_resource_lease lease s =
    let row = lookup lease.task_id s.resource_leases in
    if is_owned row lease.owner_id lease.generation
    then (true, set_until 0 row lease.task_id s)
    else (false, s)

abbrev same_labels : List String → List String → Bool
same_labels [] [] = true
same_labels (x ∷ xs) (y ∷ ys) = x == y && same_labels xs ys
same_labels [] (y ∷ ys) = false
same_labels (x ∷ xs) [] = false

abbrev same_request : Option ResourceLease → ResourceRequest → Bool
same_request none r = false
same_request (some l) r =
    nat_eq l.request.cpu_units r.cpu_units
    && nat_eq l.request.memory_mb r.memory_mb
    && nat_eq l.request.gpu_units r.gpu_units
    && same_labels l.request.exclusive_labels r.exclusive_labels

unfoldable pub validate_resource_lease : ResourceLease → ℕ → Store → Bool
validate_resource_lease lease ts s =
    let row = lookup lease.task_id s.resource_leases in
    is_owned row lease.owner_id lease.generation && is_held row ts && same_request row lease.request

unfoldable pub validate_resource_lease_identity : String → String → ℕ → ℕ → Store → Bool
validate_resource_lease_identity task owner generation ts s =
    let row = lookup task s.resource_leases in is_owned row owner generation && is_held row ts
