-- ===== src/Resources/Fencing.antt =====
-- The generations that fence off the holders of old resource leases (liandanlu_native/storage.py).
use codex_test.Prelude.{
  ℕ, ◌+◌, ◌≤◌, ◌<◌, ◌≡◌, ◌≢◌, ap, ◌∙◌, String, true, false, Option, none, some, List, [], ◌∷◌, inl,
  inr, arith, eq_iff, ltb, Option-cases, ok,
}
use codex_test.Prelude.Dict.{lookup, lookup-insert}
use codex_test.Prelude.Int.{ℤ, pos_part}
use codex_test.Models.{ResourceRequest, ResourceCapacity, ResourceLease}
use codex_test.Storage.{Store}
use codex_test.Storage.ResourceLeases.{
  acquire_resource_lease, renew_resource_lease, release_resource_lease,
  validate_resource_lease_identity, new_lease,
}
use codex_test.Resources.History.{Call, acquires, renews, releases, step, run}

-- 0 where the task never had a lease.
abbrev pub row_generation : Option ResourceLease → ℕ
row_generation none = 0
row_generation (some l) = l.generation

abbrev pub generation_of : String → Store → ℕ
generation_of task s = row_generation (lookup task s.resource_leases)

module _ (task : String) (c : ResourceCapacity) where
  step-generation :
      (ts : ℕ) (call : Call) (s : Store)
      → generation_of task s ≤ generation_of task (step c ts call s)
  unfolding step acquire_resource_lease renew_resource_lease release_resource_lease
  step-generation ts (acquires t owner request seconds) s = ground (
    arith,
    lookup-insert t task (new_lease t owner request seconds ts (lookup t s.resource_leases))
        s.resource_leases,
    eq_iff t task,
  )
  step-generation ts (renews lease seconds) s =
      elim (Option-cases (lookup lease.task_id s.resource_leases)) [
        | inl missing ↦ ground arith
        | inr (l, known) ↦ ground (
          arith,
          lookup-insert lease.task_id task (record l { lease_until = ts + pos_part seconds })
              s.resource_leases,
          eq_iff lease.task_id task,
        )
      ]
  step-generation ts (releases lease) s =
      elim (Option-cases (lookup lease.task_id s.resource_leases)) [
        | inl missing ↦ ground arith
        | inr (l, known) ↦ ground (
          arith,
          lookup-insert lease.task_id task (record l { lease_until = 0 }) s.resource_leases,
          eq_iff lease.task_id task,
        )
      ]

  pub run-generation :
      (calls : List (ℕ × Call)) (s : Store)
      → generation_of task s ≤ generation_of task (run c calls s)
  unfolding run
  run-generation [] s = omega arith
  run-generation ((ts, call) ∷ calls) s =
      omega (arith, step-generation ts call s, run-generation calls (step c ts call s))

-- An admitted request is given the next generation of its task, and the table then holds it.
pub acquired :
    (c : ResourceCapacity) (task owner : String) (request : ResourceRequest) (seconds : ℤ) (ts : ℕ)
    (s t : Store) (l : ResourceLease)
    → acquire_resource_lease task owner request c seconds ts s ≡ (ok (some l), t)
    → (l.generation ≡ generation_of task s + 1) × (generation_of task t ≡ l.generation)
unfolding acquire_resource_lease
acquired c task owner request seconds ts s t l e = ground (
  arith,
  lookup-insert task task (new_lease task owner request seconds ts (lookup task s.resource_leases))
      s.resource_leases,
  eq_iff task task,
)

stale :
    (task owner : String) (generation ts : ℕ) (s : Store)
    → generation < generation_of task s
    → validate_resource_lease_identity task owner generation ts s ≡ false
unfolding validate_resource_lease_identity
stale task owner generation ts s h = ground arith

-- Once a task has been given another lease, whatever happened in between, the older lease has the
-- smaller generation and is never valid again, whatever is called afterwards and at any time.
pub acquire_superseded :
    (c : ResourceCapacity) (task : String) (owner owner' : String)
    (request request' : ResourceRequest) (seconds seconds' : ℤ) (ts ts' : ℕ)
    (between : List (ℕ × Call)) (s s₁ s₂ : Store) (old new : ResourceLease)
    → acquire_resource_lease task owner request c seconds ts s ≡ (ok (some old), s₁)
    → acquire_resource_lease task owner' request' c seconds' ts' (run c between s₁)
      ≡ (ok (some new), s₂)
    → (old.generation < new.generation)
      × ((later : List (ℕ × Call)) (at : ℕ)
          → validate_resource_lease_identity task old.owner_id old.generation at (run c later s₂)
            ≡ false)
acquire_superseded c task owner owner' request request' seconds seconds' ts ts' between s s₁ s₂ old
      new e f =
    let first = acquired c task owner request seconds ts s s₁ old e in
    let second = acquired c task owner' request' seconds' ts' (run c between s₁) s₂ new f in
    let kept = run-generation task c between s₁ in
    (
      omega arith,
      λ later at.
          stale task old.owner_id old.generation at (run c later s₂)
            (omega (arith, run-generation task c later s₂)),
    )

-- While some lease of a task is valid, no other request of that task is admitted: a call that does not
-- raise returns None and changes nothing.
pub acquire_excluded :
    (c : ResourceCapacity) (task owner owner' : String) (generation ts : ℕ)
    (request : ResourceRequest) (seconds : ℤ) (s : Store)
    → validate_resource_lease_identity task owner generation ts s ≡ true
    → ((acquire_resource_lease task owner' request c seconds ts s).1 ≡ s)
      × ((l : ResourceLease)
          → (acquire_resource_lease task owner' request c seconds ts s).0 ≢ ok (some l))
unfolding validate_resource_lease_identity acquire_resource_lease
acquire_excluded c task owner owner' generation ts request seconds s valid =
    (ground arith, λ l e. ground arith)

acquired-row :
    (c : ResourceCapacity) (task owner : String) (request : ResourceRequest) (seconds : ℤ) (ts : ℕ)
    (s t : Store) (l : ResourceLease)
    → acquire_resource_lease task owner request c seconds ts s ≡ (ok (some l), t)
    → (lookup task t.resource_leases ≡ some l)
      × (l.task_id ≡ task)
      × (l.owner_id ≡ owner)
      × (l.lease_until ≡ ts + pos_part seconds)
unfolding acquire_resource_lease
acquired-row c task owner request seconds ts s t l e =
    let given = new_lease task owner request seconds ts (lookup task s.resource_leases) in
    let found = lookup-insert task task given s.resource_leases in
    (ground (arith, found, eq_iff task task), ground arith, ground arith, ground arith)

module _ (l : ResourceLease) (t : Store) (row : lookup l.task_id t.resource_leases ≡ some l) where
  valid_until :
      (at : ℕ)
      → validate_resource_lease_identity l.task_id l.owner_id l.generation at t
        ≡ ltb at l.lease_until
  unfolding validate_resource_lease_identity
  valid_until at = ground (arith, row, eq_iff l.owner_id l.owner_id)

  release-ends :
      ((release_resource_lease l t).0 ≡ true)
      × ((at : ℕ)
          → validate_resource_lease_identity l.task_id l.owner_id l.generation at
              (release_resource_lease l t).1
            ≡ false)
  unfolding validate_resource_lease_identity release_resource_lease
  release-ends = (
    ground (arith, row, eq_iff l.owner_id l.owner_id),
    λ at. ground (
      arith,
      row,
      eq_iff l.owner_id l.owner_id,
      lookup-insert l.task_id l.task_id (record l { lease_until = 0 }) t.resource_leases,
      eq_iff l.task_id l.task_id,
    ),
  )

-- A lease that an acquisition returns is valid exactly until its end, `lease_seconds` after the call;
-- its release succeeds and ends it at once.
pub acquire_valid :
    (c : ResourceCapacity) (task owner : String) (request : ResourceRequest) (seconds : ℤ) (ts : ℕ)
    (s t : Store) (l : ResourceLease)
    → acquire_resource_lease task owner request c seconds ts s ≡ (ok (some l), t)
    → ((at : ℕ)
        → validate_resource_lease_identity l.task_id l.owner_id l.generation at t
          ≡ ltb at (ts + pos_part seconds))
      × ((release_resource_lease l t).0 ≡ true)
      × ((at : ℕ)
          → validate_resource_lease_identity l.task_id l.owner_id l.generation at
              (release_resource_lease l t).1
            ≡ false)
acquire_valid c task owner request seconds ts s t l e =
    let row = acquired-row c task owner request seconds ts s t l e in
    let kept : lookup l.task_id t.resource_leases ≡ some l =
      ap (λ k. lookup k t.resource_leases) row.1 ∙ row.0 in
    (
      λ at. valid_until l t kept at ∙ ap (ltb at) row.3,
      (release-ends l t kept).0,
      (release-ends l t kept).1,
    )
