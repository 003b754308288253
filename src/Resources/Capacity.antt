-- ===== src/Resources/Capacity.antt =====
-- The leases that are active at any time fit the capacity, and no two of them hold one label
-- (liandanlu_native/storage.py, the resource leases).
use codex_test.Prelude.{
  ℕ, ◌+◌, ◌≤◌, ◌≡◌, refl, String, true, false, some, inl, inr, arith, ltb, contains, Bool-cases,
  Option-cases,
}
use codex_test.Prelude.Dict.{Dict, lookup, insert, IsKeyed, insert-IsKeyed}
use codex_test.Prelude.Int.{ℤ, pos_part}
use codex_test.Models.{ResourceRequest, ResourceCapacity, ResourceLease}
use codex_test.Storage.{Store}
use codex_test.Storage.ResourceLeases.{
  active_rows, acquire_resource_lease, renew_resource_lease, release_resource_lease, new_lease,
}
use codex_test.Resources.Usage.{overcommits}
use codex_test.Resources.Held.{
  held, held_mono, held_except-le, held-insert, held-split, total-active_rows, holds, no_clash,
}

pub record WithinCapacity (c : ResourceCapacity) (at : ℕ) (d : Dict ResourceLease) : Type 0 where
  pub keyed : IsKeyed d
  pub cpu : held (λ l. l.request.cpu_units) at d ≤ c.cpu_units
  pub memory : held (λ l. l.request.memory_mb) at d ≤ c.memory_mb
  pub gpu : held (λ l. l.request.gpu_units) at d ≤ c.gpu_units
  pub exclusive : (label : String) → held (holds label) at d ≤ 1

pub WithinCapacity-later :
    (c : ResourceCapacity) (a b : ℕ) (d : Dict ResourceLease)
    → a ≤ b
    → WithinCapacity c a d
    → WithinCapacity c b d
WithinCapacity-later c a b d h v = record {
  keyed = v.keyed;
  cpu = omega (arith, held_mono (λ l. l.request.cpu_units) a b d h, v.cpu);
  memory = omega (arith, held_mono (λ l. l.request.memory_mb) a b d h, v.memory);
  gpu = omega (arith, held_mono (λ l. l.request.gpu_units) a b d h, v.gpu);
  exclusive = λ label. omega (arith, held_mono (holds label) a b d h, v.exclusive label);
}

-- A request that passed the test, given to a task with no active lease.
admit :
    (c : ResourceCapacity) (ts : ℕ) (task : String) (l : ResourceLease) (d : Dict ResourceLease)
    → WithinCapacity c ts d
    → overcommits (active_rows ts task d) l.request c ≡ false
    → WithinCapacity c ts (insert task l d)
unfolding overcommits
admit c ts task l d v fits = record {
  keyed = insert-IsKeyed task l d v.keyed;
  cpu = ground (
    arith,
    held-insert (λ m. m.request.cpu_units) task l ts d v.keyed,
    total-active_rows (λ r. r.cpu_units) task ts d,
  );
  memory = ground (
    arith,
    held-insert (λ m. m.request.memory_mb) task l ts d v.keyed,
    total-active_rows (λ r. r.memory_mb) task ts d,
  );
  gpu = ground (
    arith,
    held-insert (λ m. m.request.gpu_units) task l ts d v.keyed,
    total-active_rows (λ r. r.gpu_units) task ts d,
  );
  exclusive = λ label. elim (Bool-cases (contains label l.request.exclusive_labels)) [
    | inl asked ↦ ground (
      arith,
      held-insert (holds label) task l ts d v.keyed,
      no_clash label l.request.exclusive_labels task ts d,
    )
    | inr free ↦ ground (
      arith,
      held-insert (holds label) task l ts d v.keyed,
      held_except-le (holds label) task ts d,
      v.exclusive label,
    )
  ];
}

-- A row that gets another end, and is active only if it was, counts for no more than before.
module _ (ts until : ℕ) (task : String) (l : ResourceLease) (d : Dict ResourceLease) (u : IsKeyed d)
    (known : lookup task d ≡ some l)
    (live : ltb ts until ≡ true → ltb ts l.lease_until ≡ true) where
  held-set_until :
      (weight : ResourceLease → ℕ)
      → weight (record l { lease_until = until }) ≡ weight l
      → held weight ts (insert task (record l { lease_until = until }) d) ≤ held weight ts d
  held-set_until weight same = ground (
    arith,
    held-insert weight task (record l { lease_until = until }) ts d u,
    held-split weight task l ts d u known,
  )

extend :
    (c : ResourceCapacity) (ts until : ℕ) (task : String) (l : ResourceLease)
    (d : Dict ResourceLease)
    → WithinCapacity c ts d
    → lookup task d ≡ some l
    → (ltb ts until ≡ true → ltb ts l.lease_until ≡ true)
    → WithinCapacity c ts (insert task (record l { lease_until = until }) d)
extend c ts until task l d v known live =
    let smaller = held-set_until ts until task l d v.keyed known live in
    record {
      keyed = insert-IsKeyed task _ d v.keyed;
      cpu = omega (arith, smaller (λ m. m.request.cpu_units) refl, v.cpu);
      memory = omega (arith, smaller (λ m. m.request.memory_mb) refl, v.memory);
      gpu = omega (arith, smaller (λ m. m.request.gpu_units) refl, v.gpu);
      exclusive = λ label. omega (arith, smaller (holds label) refl, v.exclusive label);
    }

abbrev pub Fits : ResourceCapacity → ℕ → Store → Type 0
Fits c ts s = WithinCapacity c ts s.resource_leases

pub acquire-Fits :
    (c : ResourceCapacity) (task owner : String) (request : ResourceRequest) (seconds : ℤ) (ts : ℕ)
    (s : Store)
    → Fits c ts s
    → Fits c ts (acquire_resource_lease task owner request c seconds ts s).1
unfolding acquire_resource_lease
acquire-Fits c task owner request seconds ts s v = ground (
  arith,
  admit c ts task (new_lease task owner request seconds ts (lookup task s.resource_leases))
      s.resource_leases v,
)

pub renew-Fits :
    (c : ResourceCapacity) (lease : ResourceLease) (seconds : ℤ) (ts : ℕ) (s : Store)
    → Fits c ts s
    → Fits c ts (renew_resource_lease lease seconds ts s).1
unfolding renew_resource_lease
renew-Fits c lease seconds ts s v = elim (Option-cases (lookup lease.task_id s.resource_leases)) [
  | inl missing ↦ ground arith
  | inr (l, known) ↦
      ground (arith, extend c ts (ts + pos_part seconds) lease.task_id l s.resource_leases v known)
]

pub release-Fits :
    (c : ResourceCapacity) (lease : ResourceLease) (ts : ℕ) (s : Store)
    → Fits c ts s
    → Fits c ts (release_resource_lease lease s).1
unfolding release_resource_lease
release-Fits c lease ts s v = elim (Option-cases (lookup lease.task_id s.resource_leases)) [
  | inl missing ↦ ground arith
  | inr (l, known) ↦ ground (arith, extend c ts 0 lease.task_id l s.resource_leases v known)
]
