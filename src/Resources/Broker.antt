-- ===== src/Resources/Broker.antt =====
-- `ResourceBroker` of liandanlu_native/resources.py. `persistence` holds the store that the broker
-- hands its calls to, if it has one; then `leases` stays empty.
use codex_test.Prelude.{
  ℕ, ◌+◌, ◌-◌, String, Bool, true, false, not, ◌&&◌, ◌||◌, Option, none, some, List, ◌==◌, ltb,
  select, if◌then◌else◌, Result, ok, err, value_error,
}
use codex_test.Prelude.Dict.{Dict, lookup, insert, values}
use codex_test.Prelude.Int.{ℤ, pos_part, neg_part, not_positive}
use codex_test.Models.{ResourceRequest, ResourceCapacity, ResourceLease}
use codex_test.Storage.{Store}
use codex_test.Storage.ResourceLeases.{
  acquire_resource_lease, renew_resource_lease, release_resource_lease, validate_resource_lease,
  is_held, is_owned, new_lease,
}
use codex_test.Resources.Usage.{exceeds, overcommits}

pub record ResourceBroker : Type 0 where
  pub capacity : ResourceCapacity
  pub persistence : Option Store
  pub leases : Dict ResourceLease

-- `_active`
unfoldable pub active : ℕ → Dict ResourceLease → List ResourceLease
active at d = select (λ l. ltb at l.lease_until) (values d)

-- `[lease for lease in self._active(ts) if lease.task_id != task_id]`
unfoldable pub active_others : ℕ → String → Dict ResourceLease → List ResourceLease
unfolding active
active_others ts task d = select (λ l. not (l.task_id == task)) (active ts d)

-- The rest of `acquire` without a store.
unfoldable pub acquire_in_memory :
    String
    → String
    → ResourceRequest
    → ℤ
    → ℕ
    → ResourceBroker
    → Option ResourceLease × ResourceBroker
acquire_in_memory task owner request lease_seconds ts b =
    let previous = lookup task b.leases in
    if is_held previous ts
    then (none, b)
    else if overcommits (active_others ts task b.leases) request b.capacity
    then (none, b)
    else let lease = new_lease task owner request lease_seconds ts previous in
      (some lease, record b { leases = insert task lease b.leases })

abbrev stored :
    ResourceBroker
    → Result (Option ResourceLease) × Store
    → Result (Option ResourceLease) × ResourceBroker
stored b (r, s) = (r, record b { persistence = some s })

abbrev in_memory :
    Option ResourceLease × ResourceBroker → Result (Option ResourceLease) × ResourceBroker
in_memory (l, b) = (ok l, b)

abbrev acquire_admissible :
    Option Store
    → String
    → String
    → ResourceRequest
    → ℤ
    → ℕ
    → ResourceBroker
    → Result (Option ResourceLease) × ResourceBroker
acquire_admissible none task owner request lease_seconds ts b =
    in_memory (acquire_in_memory task owner request lease_seconds ts b)
acquire_admissible (some s) task owner request lease_seconds ts b =
    stored b (acquire_resource_lease task owner request b.capacity lease_seconds ts s)

unfoldable pub acquire :
    String
    → String
    → ResourceRequest
    → ℤ
    → ℕ
    → ResourceBroker
    → Result (Option ResourceLease) × ResourceBroker
acquire task owner request lease_seconds ts b =
    if task == "" || owner == ""
    then (err value_error, b)
    else if not_positive lease_seconds
    then (err value_error, b)
    else if exceeds request b.capacity
    then (ok none, b)
    else acquire_admissible b.persistence task owner request lease_seconds ts b

-- `renew` without a store does not ask for a positive `lease_seconds`; a time before 0 is 0 here.
abbrev plus_seconds : ℕ → ℤ → ℕ
plus_seconds ts seconds = ts + pos_part seconds - neg_part seconds

-- Without a store the lease that the caller presents replaces the one that is kept.
unfoldable pub renew_in_memory :
    ResourceLease → ℤ → ℕ → ResourceBroker → Option ResourceLease × ResourceBroker
renew_in_memory lease lease_seconds ts b =
    let current = lookup lease.task_id b.leases in
    if is_owned current lease.owner_id lease.generation && is_held current ts
    then (let renewed = record lease { lease_until = plus_seconds ts lease_seconds } in
        (some renewed, record b { leases = insert lease.task_id renewed b.leases }))
    else (none, b)

abbrev renew_with :
    Option Store
    → ResourceLease
    → ℤ
    → ℕ
    → ResourceBroker
    → Result (Option ResourceLease) × ResourceBroker
renew_with none lease lease_seconds ts b = in_memory (renew_in_memory lease lease_seconds ts b)
renew_with (some s) lease lease_seconds ts b =
    stored b (renew_resource_lease lease lease_seconds ts s)

unfoldable pub renew :
    ResourceLease → ℤ → ℕ → ResourceBroker → Result (Option ResourceLease) × ResourceBroker
renew lease lease_seconds ts b = renew_with b.persistence lease lease_seconds ts b

abbrev expire : Option ResourceLease → String → ResourceBroker → ResourceBroker
expire none task b = b
expire (some l) task b = record b { leases = insert task (record l { lease_until = 0 }) b.leases }

unfoldable pub release_in_memory : ResourceLease → ResourceBroker → Bool × ResourceBroker
release_in_memory lease b =
    let current = lookup lease.task_id b.leases in
    if is_owned current lease.owner_id lease.generation
    then (true, expire current lease.task_id b)
    else (false, b)

abbrev stored_flag : ResourceBroker → Bool × Store → Bool × ResourceBroker
stored_flag b (r, s) = (r, record b { persistence = some s })

abbrev release_with : Option Store → ResourceLease → ResourceBroker → Bool × ResourceBroker
release_with none lease b = release_in_memory lease b
release_with (some s) lease b = stored_flag b (release_resource_lease lease s)

unfoldable pub release : ResourceLease → ResourceBroker → Bool × ResourceBroker
release lease b = release_with b.persistence lease b

abbrev validate_with : Option Store → ResourceLease → ℕ → ResourceBroker → Bool
validate_with none lease ts b =
    let current = lookup lease.task_id b.leases in
    is_owned current lease.owner_id lease.generation && is_held current ts
validate_with (some s) lease ts b = validate_resource_lease lease ts s

unfoldable pub validate : ResourceLease → ℕ → ResourceBroker → Bool
validate lease ts b = validate_with b.persistence lease ts b
