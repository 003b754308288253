-- ===== src/Recovery/Settled.antt =====
-- What `RecoveryCoordinator.recover` (liandanlu_native/recovery.py) leaves of the tasks.
use codex_test.Prelude.{
  ℕ, ◌≡◌, refl, sym, ap, ◌∙◌, subst, String, Bool, true, false, some, List, [], ◌∷◌, arith, eq_iff,
  inl, inr, ◌⊎◌, ◌==◌, Bool-cases, Result-cases, Error, Result, ok, err,
}
use codex_test.Prelude.Dict.{Dict, lookup, values, IsNamed}
use codex_test.Models.{Task, Operation}
use codex_test.Models.States.{paused, cancelled, is_state_iff}
use codex_test.Tasks.{Stamp}
use codex_test.Operations.{Stamps}
use codex_test.Engine.{Engine, flush}
use codex_test.Recovery.{
  Moments, is_open, recover_one, recover_operations, counted, one_more, wants_control, settle_one,
  settle_tasks, then_settle, then_flush, recover,
}
use codex_test.Recovery.Rounds.{IsStopped, StoppedAt, Follows, round-Follows, Follows-StoppedAt}

-- The loop reaches the task of an id and settles it.
abbrev Listed : String → List Task → Type 0
Listed id [] = ⊥
Listed id (u ∷ ts) = ((u.task_id ≡ id) × (wants_control u.desired_state ≡ true)) ⊎ Listed id ts

after_round :
    (id : String) (t : Task) (u : Task) (ts : List Task) (d d' : Dict Task)
    → lookup id d ≡ some t
    → Follows id t d'
    → (u.task_id ≡ id → wants_control u.desired_state ≡ true → StoppedAt id d')
    → StoppedAt id d ⊎ Listed id (u ∷ ts)
    → StoppedAt id d' ⊎ Listed id ts
after_round id t u ts d d' at f now (inl (v, there, s)) =
    let e : v ≡ t = ground (arith, at, there) in
    inl (Follows-StoppedAt id t d' (subst IsStopped e s) f)
after_round id t u ts d d' at f now (inr (inl (named, wants))) = inl (now named wants)
after_round id t u ts d d' at f now (inr (inr later)) = inr later

pub settle_tasks_next :
    (stamps : String → Stamp) (u : Task) (ts : List Task) (n : ℕ) (e : Engine) (b : Bool)
    → (settle_one stamps u e).0 ≡ ok b
    → settle_tasks stamps (u ∷ ts) n e
      ≡ settle_tasks stamps ts (one_more b n) (settle_one stamps u e).1
unfolding settle_tasks
settle_tasks_next stamps u ts n e b good = rw (good, settle_tasks)

settle_tasks_raises :
    (stamps : String → Stamp) (u : Task) (ts : List Task) (n : ℕ) (e : Engine) (x : Error)
    → (settle_one stamps u e).0 ≡ err x
    → (settle_tasks stamps (u ∷ ts) n e).0 ≡ err x
unfolding settle_tasks
settle_tasks_raises stamps u ts n e x bad = rw (bad, settle_tasks)

settle_tasks-StoppedAt :
    (stamps : String → Stamp) (ts : List Task) (n m : ℕ) (e : Engine) (id : String) (t : Task)
    → (settle_tasks stamps ts n e).0 ≡ ok m
    → lookup id e.tasks ≡ some t
    → StoppedAt id e.tasks ⊎ Listed id ts
    → StoppedAt id (settle_tasks stamps ts n e).1.tasks
unfolding settle_tasks
settle_tasks-StoppedAt stamps [] n m e id t h at (inl s) = s
settle_tasks-StoppedAt stamps [] n m e id t h at (inr l) = elim l [ ]
settle_tasks-StoppedAt stamps (u ∷ ts) n m e id t h at l =
    elim (Result-cases (settle_one stamps u e).0) [
      | inl (x, raised) ↦ cc (settle_tasks_raises stamps u ts n e x raised, h)
      | inr (b, good) ↦
          let (f, now) = round-Follows stamps u e b id t good at in
          let next = (settle_one stamps u e).1 in
          subst (λ r. StoppedAt id r.1.tasks) (sym (settle_tasks_next stamps u ts n e b good))
            (settle_tasks-StoppedAt stamps ts (one_more b n) m next id f.task
              (ap (λ r. r.0) (sym (settle_tasks_next stamps u ts n e b good)) ∙ h) f.present
              (after_round id t u ts e.tasks next.tasks at f now l))
    ]

values-Listed :
    (id : String) (t : Task) (d : Dict Task)
    → IsNamed (λ (u : Task). u.task_id) d
    → lookup id d ≡ some t
    → wants_control t.desired_state ≡ true
    → Listed id (values d)
unfolding lookup
values-Listed id t [] n h w = cc
values-Listed id t ((k, u) ∷ d) n h w = elim (Bool-cases (k == id)) [
  | inl same ↦
      let e : u ≡ t = ground (arith, same, h) in
      inl (n.0 ∙ (eq_iff k id).0 same, ap (λ (x : Task). wants_control x.desired_state) e ∙ w)
  | inr other ↦ inr (values-Listed id t d n.1 (ground (arith, other, h)) w)
]

not_wanted-IsStopped : (t : Task) → wants_control t.desired_state ≡ false → IsStopped t
not_wanted-IsStopped t h = record {
  pauses = λ e. ground (arith, h, e, is_state_iff t.desired_state paused);
  cancels = λ e. ground (arith, h, e, is_state_iff t.desired_state cancelled);
}

start :
    (id : String) (t : Task) (d : Dict Task)
    → IsNamed (λ (u : Task). u.task_id) d
    → lookup id d ≡ some t
    → StoppedAt id d ⊎ Listed id (values d)
start id t d n h = elim (Bool-cases (wants_control t.desired_state)) [
  | inl wants ↦ inr (values-Listed id t d n h wants)
  | inr other ↦ inl (t, h, not_wanted-IsStopped t other)
]

counted_tasks : (r : Result Operation × Engine) → (counted r).1.tasks ≡ r.1.tasks
counted_tasks (err x, e) = refl
counted_tasks (ok op, e) = refl

-- The first loop leaves the tasks.
recover_one_tasks :
    (repr : Error → String) (stamps : String → Stamps) (op : Operation) (e : Engine)
    → (recover_one repr stamps op e).1.tasks ≡ e.tasks
unfolding recover_one
recover_one_tasks repr stamps op e = elim (Bool-cases (is_open op.state)) [
  | inl opened ↦ rw opened (counted_tasks _)
  | inr done ↦ rw done
]

pub recover_operations_tasks :
    (repr : Error → String) (stamps : String → Stamps) (ops : List Operation) (n : ℕ) (e : Engine)
    → (recover_operations repr stamps ops n e).1.tasks ≡ e.tasks
unfolding recover_operations
recover_operations_tasks repr stamps [] n e = refl
recover_operations_tasks repr stamps (op ∷ ops) n e =
    elim (Result-cases (recover_one repr stamps op e).0) [
      | inl (x, raised) ↦ rw (raised, recover_operations) (recover_one_tasks repr stamps op e)
      | inr (b, good) ↦
          rw (good, recover_operations)
            (recover_operations_tasks repr stamps ops (one_more b n)
                (recover_one repr stamps op e).1
              ∙ recover_one_tasks repr stamps op e)
    ]

then_flush_lem :
    (k : Moments) (n : ℕ) (r : Result ℕ × Engine) (p : ℕ × ℕ)
    → (then_flush k n r).0 ≡ ok p
    → (m : ℕ) × (r.0 ≡ ok m) × ((then_flush k n r).1.tasks ≡ r.1.tasks)
unfolding flush
then_flush_lem k n (err x, e) p h = cc
then_flush_lem k n (ok m, e) p h = (m, refl, refl)

then_settle_lem :
    (k : Moments) (r : Result ℕ × Engine) (p : ℕ × ℕ)
    → (then_settle k r).0 ≡ ok p
    → (m : ℕ) × ((settle_tasks k.task_stamps (values r.1.tasks) 0 r.1).0 ≡ ok m)
      × ((then_settle k r).1.tasks ≡ (settle_tasks k.task_stamps (values r.1.tasks) 0 r.1).1.tasks)
then_settle_lem k (err x, e) p h = cc
then_settle_lem k (ok n, e) p h =
    then_flush_lem k n (settle_tasks k.task_stamps (values e.tasks) 0 e) p h

-- After a recovery that returns, each task that was there is there, and has stopped if it is to: a task
-- whose desired state is PAUSED is paused, and one whose desired state is CANCELLED is cancelled.
pub recover-StoppedAt :
    (k : Moments) (e : Engine) (p : ℕ × ℕ)
    → IsNamed (λ (u : Task). u.task_id) e.tasks
    → (recover k e).0 ≡ ok p
    → (id : String) (t : Task) → lookup id e.tasks ≡ some t
    → StoppedAt id (recover k e).1.tasks
unfolding recover
recover-StoppedAt k e p n h id t at =
    let r = recover_operations k.repr k.operation_stamps (values e.operations) 0 e in
    let same : r.1.tasks ≡ e.tasks =
      recover_operations_tasks k.repr k.operation_stamps (values e.operations) 0 e in
    let (m, good, kept) = then_settle_lem k r p h in
    subst (StoppedAt id) (sym kept) (
      settle_tasks-StoppedAt k.task_stamps (values r.1.tasks) 0 m r.1 id t good
        (ap (lookup id) same ∙ at)
        (start id t r.1.tasks (subst (IsNamed (λ (u : Task). u.task_id)) (sym same) n)
          (ap (lookup id) same ∙ at)))
