-- ===== src/Leases/Claims.antt =====
-- `SQLiteStore.claim_next_task` of liandanlu_native/storage.py against its specification.
use codex_test.Prelude.{
  ◌↔◌, ◌≤◌, is_some, ℕ, ◌≡◌, refl, sym, subst, select_pass, select_fail, Error, ◌∙◌, String, Bool,
  true, false, Option, none, some, List, [], ◌∷◌, inl, inr, arith, All, select, Bool-cases, ok, err,
}
use mathlib.Core.Bool.{false≢true}
use codex_test.Prelude.Dict.{values, lookup}
use codex_test.Models.States.{TaskState, queued, is_state_iff}
use codex_test.Prelude.Int.{ℤ}
use codex_test.Models.{Task, TaskLease}
use codex_test.Storage.{Store}
use codex_test.Storage.TaskLeases.{is_free, is_claimable, claimable, claim_next_task, claim_lease}
use codex_test.Storage.TaskLeases.Order.{
  precedes, first_task, IsOneOf, first_task-IsFirst, first_task-none,
}

one_more :
    (p : Task → Bool) (b t : Task) (ts : List Task)
    → p t ≡ true
    → (IsOneOf b (select p ts) → IsOneOf b ts × (p b ≡ true))
    → IsOneOf b (t ∷ select p ts)
    → IsOneOf b (t ∷ ts) × (p b ≡ true)
one_more p b t ts pass rest (inl e) = (inl e, subst (λ u. p u ≡ true) e pass)
one_more p b t ts pass rest (inr m) = (inr (rest m).0, (rest m).1)

-- A row that the WHERE clause lets through is a row that meets it.
pub IsOneOf-select :
    (p : Task → Bool) (b : Task) (ts : List Task)
    → IsOneOf b (select p ts)
    → IsOneOf b ts × (p b ≡ true)
IsOneOf-select p b [] m = elim m [ ]
IsOneOf-select p b (t ∷ ts) m = elim (Bool-cases (p t)) [
  | inl pass ↦
      one_more p b t ts pass (IsOneOf-select p b ts) (subst (IsOneOf b) (select_pass p t ts pass) m)
  | inr fail ↦
      let rest = IsOneOf-select p b ts (subst (IsOneOf b) (select_fail p t ts fail) m) in
      (inr rest.0, rest.1)
]

-- A statement of the rows that pass, seen from the whole table.
pub All-select :
    (p : Task → Bool) (P : Task → Type 0) (ts : List Task)
    → All P (select p ts)
    → All (λ t. p t ≡ true → P t) ts
All-select p P [] a = tt
All-select p P (t ∷ ts) a = elim (Bool-cases (p t)) [
  | inl pass ↦
      let both = subst (All P) (select_pass p t ts pass) a in
      (λ h. both.0, All-select p P ts both.1)
  | inr fail ↦ (
    λ h. absurd (false≢true (sym fail ∙ h)),
    All-select p P ts (subst (All P) (select_fail p t ts fail) a),
  )
]

pub select-nil : (p : Task → Bool) (ts : List Task) → select p ts ≡ [] → All (λ t. p t ≡ false) ts
select-nil p [] e = tt
select-nil p (t ∷ ts) e = elim (Bool-cases (p t)) [
  | inl pass ↦ cc (select_pass p t ts pass)
  | inr fail ↦ (fail, select-nil p ts (sym (select_fail p t ts fail) ∙ e))
]

-- The task may be claimed: it is queued and wanted running, and no lease of it runs.
pub record MayRun (s : Store) (ts : ℕ) (t : Task) : Type 0 where
  pub queued_now : t.state ≡ queued
  pub wanted : t.desired_state ≡ TaskState.running
  pub timed : is_some t.queued_at ≡ true
  pub free : (l : TaskLease) → lookup t.task_id s.task_leases ≡ some l → l.lease_until ≤ ts

is_free_iff :
    (o : Option TaskLease) (ts : ℕ)
    → (is_free o ts ≡ true) ↔ ((l : TaskLease) → o ≡ some l → l.lease_until ≤ ts)
is_free_iff none ts = (λ h l e. ground (arith, e), λ h. refl)
is_free_iff (some m) ts = (λ h l e. ground (arith, h, e), λ h. ground (arith, h m refl))

is_claimable_iff : (s : Store) (ts : ℕ) (t : Task) → (is_claimable s ts t ≡ true) ↔ MayRun s ts t
unfolding is_claimable
is_claimable_iff s ts t =
    let free = is_free_iff (lookup t.task_id s.task_leases) ts in
    let state = is_state_iff t.state queued in
    let desired = is_state_iff t.desired_state TaskState.running in
    (
      λ h. record {
        queued_now = state.0 (ground (arith, h));
        wanted = desired.0 (ground (arith, h));
        timed = ground (arith, h);
        free = free.0 (ground (arith, h));
      },
      λ m. ground (arith, state.1 m.queued_now, desired.1 m.wanted, m.timed, free.1 m.free),
    )

All-map : {P Q : Task → Type 0} (ts : List Task) → ((t : Task) → P t → Q t) → All P ts → All Q ts
All-map [] f a = tt
All-map (t ∷ ts) f a = (f t a.0, All-map ts f a.1)

-- The task that a claim takes.
pub record Claimed (s : Store) (owner : String) (seconds : ℤ) (ts : ℕ) (l : TaskLease)
    : Type 0 where
  pub task : Task
  pub row : IsOneOf task (values s.tasks)
  pub may_run : MayRun s ts task
  pub first : All (λ t. MayRun s ts t → precedes t task ≡ false) (values s.tasks)
  pub lease : l ≡ claim_lease owner seconds ts s task

Claimed-first :
    (owner : String) (seconds : ℤ) (ts : ℕ) (s : Store) (o : Option Task)
    → first_task (claimable s ts) ≡ o
    → (t : Store) (l : TaskLease) → claim_next_task owner seconds ts s ≡ (ok (some l), t)
    → Claimed s owner seconds ts l
unfolding claim_next_task
Claimed-first owner seconds ts s none e t l h = absurd (ground (arith, e))
Claimed-first owner seconds ts s (some b) e t l h =
    let found = first_task-IsFirst (claimable s ts) b e in
    unfold claimable in
    record {
      task = b;
      row = (IsOneOf-select (is_claimable s ts) b (values s.tasks) found.0).0;
      may_run =
          (is_claimable_iff s ts b).0
            (IsOneOf-select (is_claimable s ts) b (values s.tasks) found.0).1;
      first =
          All-map (values s.tasks) (λ t f m. f ((is_claimable_iff s ts t).1 m))
            (All-select (is_claimable s ts) _ (values s.tasks) found.1);
      lease = ground (arith, e);
    }

-- A claim that returns a lease takes a task that is queued, wanted running and not leased, and no such
-- task comes before it by lane, priority, time of queueing and id; a claim that returns None has found
-- no such task and has changed nothing; a claim that raises has changed nothing.
pub claim_next_task_lem :
    (owner : String) (seconds : ℤ) (ts : ℕ) (s : Store)
    → ((t : Store) (l : TaskLease)
        → claim_next_task owner seconds ts s ≡ (ok (some l), t)
        → Claimed s owner seconds ts l)
      × ((t : Store)
          → claim_next_task owner seconds ts s ≡ (ok none, t)
          → All (λ b. MayRun s ts b → ⊥) (values s.tasks) × (t ≡ s))
      × ((x : Error) (t : Store) → claim_next_task owner seconds ts s ≡ (err x, t) → t ≡ s)
unfolding claim_next_task
claim_next_task_lem owner seconds ts s = (
  Claimed-first owner seconds ts s _ refl,
  λ t h.
      let e : first_task (claimable s ts) ≡ none = ground arith in
      (
        unfold claimable in
            All-map (values s.tasks) (λ b f m. false≢true (sym f ∙ (is_claimable_iff s ts b).1 m))
              (select-nil (is_claimable s ts) (values s.tasks) (first_task-none _ e)),
        ground arith,
      ),
  λ x t h. ground arith,
)
