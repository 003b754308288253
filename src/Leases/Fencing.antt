-- ===== src/Leases/Fencing.antt =====
-- The generations that fence off the holders of old task leases (liandanlu_native/storage.py).
use codex_test.Prelude.{
  ℕ, ◌+◌, ◌≤◌, ◌<◌, ◌≡◌, ◌≢◌, ap, sym, ◌∙◌, String, true, false, Option, none, some, List, [], ◌∷◌,
  inl, inr, arith, eq_iff, ltb, Option-cases, ok,
}
use codex_test.Prelude.Dict.{lookup, lookup-insert}
use codex_test.Prelude.Int.{ℤ, pos_part}
use codex_test.Models.{TaskLease}
use codex_test.Storage.{Store}
use codex_test.Storage.TaskLeases.{
  claimable, claim_next_task, renew_task_lease, release_task_lease, validate_task_lease_identity,
  claim_lease, is_claimable,
}
use codex_test.Storage.TaskLeases.Order.{first_task}
use codex_test.Leases.Claims.{claim_next_task_lem}

pub data Call : Type 0 where
  claims : String → ℤ → Call
  renews : TaskLease → ℤ → Call
  releases : TaskLease → Call

unfoldable pub step : ℕ → Call → Store → Store
step ts (claims owner seconds) s = (claim_next_task owner seconds ts s).1
step ts (renews lease seconds) s = (renew_task_lease lease seconds ts s).1
step ts (releases lease) s = (release_task_lease lease s).1

unfoldable pub run : List (ℕ × Call) → Store → Store
unfolding step
run [] s = s
run ((ts, call) ∷ calls) s = run calls (step ts call s)

-- 0 where the task never had a lease.
abbrev pub row_generation : Option TaskLease → ℕ
row_generation none = 0
row_generation (some l) = l.generation

abbrev pub generation_of : String → Store → ℕ
generation_of task s = row_generation (lookup task s.task_leases)

module _ (task : String) where
  claim-generation :
      (ts : ℕ) (owner : String) (seconds : ℤ) (s : Store)
      → generation_of task s ≤ generation_of task (claim_next_task owner seconds ts s).1
  unfolding claim_next_task
  claim-generation ts owner seconds s = elim (Option-cases (first_task (claimable s ts))) [
    | inl missing ↦ ground arith
    | inr (b, found) ↦ ground (
      arith,
      lookup-insert b.task_id task (claim_lease owner seconds ts s b) s.task_leases,
      eq_iff b.task_id task,
    )
  ]

  step-generation :
      (ts : ℕ) (call : Call) (s : Store)
      → generation_of task s ≤ generation_of task (step ts call s)
  unfolding step renew_task_lease release_task_lease
  step-generation ts (claims owner seconds) s = claim-generation ts owner seconds s
  step-generation ts (renews lease seconds) s =
      elim (Option-cases (lookup lease.task_id s.task_leases)) [
        | inl missing ↦ ground arith
        | inr (l, known) ↦ ground (
          arith,
          lookup-insert lease.task_id task (record l { lease_until = ts + pos_part seconds })
              s.task_leases,
          eq_iff lease.task_id task,
        )
      ]
  step-generation ts (releases lease) s = elim (Option-cases (lookup lease.task_id s.task_leases)) [
    | inl missing ↦ ground arith
    | inr (l, known) ↦ ground (
      arith,
      lookup-insert lease.task_id task (record l { lease_until = 0 }) s.task_leases,
      eq_iff lease.task_id task,
    )
  ]

  pub run-generation :
      (calls : List (ℕ × Call)) (s : Store)
      → generation_of task s ≤ generation_of task (run calls s)
  unfolding run
  run-generation [] s = omega arith
  run-generation ((ts, call) ∷ calls) s =
      omega (arith, step-generation ts call s, run-generation calls (step ts call s))

-- A claimed task has the next generation, and the table then holds the lease.
pub claimed-row :
    (owner : String) (seconds : ℤ) (ts : ℕ) (s t : Store) (l : TaskLease)
    → claim_next_task owner seconds ts s ≡ (ok (some l), t)
    → (l.generation ≡ generation_of l.task_id s + 1)
      × (lookup l.task_id t.task_leases ≡ some l)
      × (l.lease_until ≡ ts + pos_part seconds)
unfolding claim_next_task
claimed-row owner seconds ts s t l e = elim (Option-cases (first_task (claimable s ts))) [
  | inl missing ↦ absurd (ground arith)
  | inr (b, found) ↦
      let given = claim_lease owner seconds ts s b in
      let held = lookup-insert b.task_id b.task_id given s.task_leases in
      (ground arith, ground (arith, held, eq_iff b.task_id b.task_id), ground arith)
]

stale :
    (task owner : String) (generation ts : ℕ) (s : Store)
    → generation < generation_of task s
    → validate_task_lease_identity task owner generation ts s ≡ false
unfolding validate_task_lease_identity
stale task owner generation ts s h = ground arith

-- Once a task has been claimed again, whatever happened in between, the older lease has the smaller
-- generation and is never valid again, whatever is called afterwards and at any time.
pub claim_next_task_superseded :
    (owner owner' : String) (seconds seconds' : ℤ) (ts ts' : ℕ) (between : List (ℕ × Call))
    (s s₁ s₂ : Store) (old new : TaskLease)
    → claim_next_task owner seconds ts s ≡ (ok (some old), s₁)
    → claim_next_task owner' seconds' ts' (run between s₁) ≡ (ok (some new), s₂)
    → old.task_id ≡ new.task_id
    → (old.generation < new.generation)
      × ((later : List (ℕ × Call)) (at : ℕ)
          → validate_task_lease_identity old.task_id old.owner_id old.generation at (run later s₂)
            ≡ false)
claim_next_task_superseded owner owner' seconds seconds' ts ts' between s s₁ s₂ old new e f same =
    let first = claimed-row owner seconds ts s s₁ old e in
    let second = claimed-row owner' seconds' ts' (run between s₁) s₂ new f in
    let held = ap row_generation first.1 in
    let held' = ap row_generation second.1 in
    let kept = run-generation old.task_id between s₁ in
    let moved = ap (λ k. generation_of k (run between s₁)) same in
    let moved' = ap (λ k. generation_of k s₂) same in
    (
      omega arith,
      λ later at.
          stale old.task_id old.owner_id old.generation at (run later s₂)
            (omega (arith, run-generation old.task_id later s₂)),
    )

-- While a lease of a task is valid, no worker's claim returns that task.
pub claim_next_task_excluded :
    (task owner owner' : String) (generation ts : ℕ) (seconds : ℤ) (s t : Store) (l : TaskLease)
    → validate_task_lease_identity task owner generation ts s ≡ true
    → claim_next_task owner' seconds ts s ≡ (ok (some l), t)
    → l.task_id ≢ task
unfolding validate_task_lease_identity is_claimable
claim_next_task_excluded task owner owner' generation ts seconds s t l valid e same =
    let c = (claim_next_task_lem owner' seconds ts s).0 t l e in
    let id = ap (λ (m : TaskLease). m.task_id) c.lease in
    let there = ap (λ k. lookup k s.task_leases) (sym id ∙ same) in
    elim (Option-cases (lookup task s.task_leases)) [
      | inl missing ↦ ground (arith, valid, missing)
      | inr (m, known) ↦ ground (arith, valid, known, c.may_run.free m (there ∙ known))
    ]

module _ (l : TaskLease) (t : Store) (row : lookup l.task_id t.task_leases ≡ some l) where
  valid_until :
      (at : ℕ)
      → validate_task_lease_identity l.task_id l.owner_id l.generation at t ≡ ltb at l.lease_until
  unfolding validate_task_lease_identity
  valid_until at = ground (arith, row, eq_iff l.owner_id l.owner_id)

  release-ends :
      ((release_task_lease l t).0 ≡ true)
      × ((at : ℕ)
          → validate_task_lease_identity l.task_id l.owner_id l.generation at
              (release_task_lease l t).1
            ≡ false)
  unfolding validate_task_lease_identity release_task_lease
  release-ends = (
    ground (arith, row, eq_iff l.owner_id l.owner_id),
    λ at. ground (
      arith,
      row,
      eq_iff l.owner_id l.owner_id,
      lookup-insert l.task_id l.task_id (record l { lease_until = 0 }) t.task_leases,
      eq_iff l.task_id l.task_id,
    ),
  )

-- A claimed task is the worker's exactly until the end of the lease, `lease_seconds` after the call; its
-- release succeeds and ends the lease at once.
pub claim_next_task_valid :
    (owner : String) (seconds : ℤ) (ts : ℕ) (s t : Store) (l : TaskLease)
    → claim_next_task owner seconds ts s ≡ (ok (some l), t)
    → ((at : ℕ)
        → validate_task_lease_identity l.task_id l.owner_id l.generation at t
          ≡ ltb at (ts + pos_part seconds))
      × ((release_task_lease l t).0 ≡ true)
      × ((at : ℕ)
          → validate_task_lease_identity l.task_id l.owner_id l.generation at
              (release_task_lease l t).1
            ≡ false)
claim_next_task_valid owner seconds ts s t l e =
    let row = claimed-row owner seconds ts s t l e in
    (
      λ at. valid_until l t row.1 at ∙ ap (ltb at) row.2,
      (release-ends l t row.1).0,
      (release-ends l t row.1).1,
    )
