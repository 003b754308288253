-- ===== src/Recovery/Returns.antt =====
-- When `RecoveryCoordinator.recover` (liandanlu_native/recovery.py) returns.
use codex_test.Prelude.{
  ℕ, ◌≡◌, refl, sym, subst, String, Bool, true, false, some, List, [], ◌∷◌, arith, eq_refl, inl,
  inr, ◌==◌, Bool-cases, All, Error, Result, ok, err, lift, if◌then◌else◌,
}
use codex_test.Prelude.Dict.{Dict, lookup, values, IsNamed}
use codex_test.Models.{Task, Operation}
use codex_test.Models.States.{is_state}
use codex_test.Storage.Outbox.{Draft}
use codex_test.Tasks.{
  TaskRuntime, Stamp, settle_control, settle_found, settled_state, touch_and_record, draft,
  control_payload,
}
use codex_test.Tasks.Calls.{found}
use codex_test.Operations.{Capability, Stamps, recover_operation}
use codex_test.Operations.Recovery.{IsReady, recover_operation-ready}
use codex_test.Engine.{Engine, task_runtime, operation_runtime, on_tasks, on_operations, flush}
use codex_test.Recovery.{
  Moments, is_open, recover_one, recover_operations, counted, one_more, wants_control, settle_one,
  settle_tasks, changed, then_settle, then_flush, recover,
}
use codex_test.Recovery.Rounds.{round-Follows, StoppedAt}
use codex_test.Recovery.Settled.{settle_tasks_next, recover_operations_tasks, recover-StoppedAt}

abbrev pub Returns {ℓ} : {A : Type ℓ} → Result A → Type ℓ
Returns {A} r = (a : A) × (r ≡ ok a)

counted-Returns : (r : Result Operation × Engine) → Returns r.0 → Returns (counted r).0
counted-Returns (err x, e) (op, h) = cc
counted-Returns (ok op, e) h = (true, refl)

recover_one-Returns :
    (repr : Error → String) (stamps : String → Stamps) (op : Operation) (e : Engine)
    → (is_open op.state ≡ true → IsReady e.capabilities op)
    → Returns (recover_one repr stamps op e).0
unfolding recover_one
recover_one-Returns repr stamps op e ready = elim (Bool-cases (is_open op.state)) [
  | inl opened ↦ rw opened (
      counted-Returns (on_operations (recover_operation repr op (stamps op.operation_id)) e) (
        recover_operation-ready repr op (stamps op.operation_id) (operation_runtime e)
          (ready opened)))
  | inr closed ↦ rw closed (false, refl)
]

counted_capabilities :
    (r : Result Operation × Engine) → (counted r).1.capabilities ≡ r.1.capabilities
counted_capabilities (err x, e) = refl
counted_capabilities (ok op, e) = refl

recover_one_capabilities :
    (repr : Error → String) (stamps : String → Stamps) (op : Operation) (e : Engine)
    → (recover_one repr stamps op e).1.capabilities ≡ e.capabilities
unfolding recover_one
recover_one_capabilities repr stamps op e = elim (Bool-cases (is_open op.state)) [
  | inl opened ↦ rw opened (counted_capabilities _)
  | inr done ↦ rw done
]

-- Every operation that is to be recovered can be.
abbrev pub AllReady : Dict Capability → List Operation → Type 0
AllReady capabilities = All (λ op. is_open op.state ≡ true → IsReady capabilities op)

recover_operations_next :
    (repr : Error → String) (stamps : String → Stamps) (op : Operation) (ops : List Operation)
    (n : ℕ) (e : Engine) (b : Bool)
    → (recover_one repr stamps op e).0 ≡ ok b
    → recover_operations repr stamps (op ∷ ops) n e
      ≡ recover_operations repr stamps ops (one_more b n) (recover_one repr stamps op e).1
unfolding recover_operations
recover_operations_next repr stamps op ops n e b good = rw (good, recover_operations)

recover_operations-Returns :
    (repr : Error → String) (stamps : String → Stamps) (ops : List Operation) (n : ℕ) (e : Engine)
    → AllReady e.capabilities ops
    → Returns (recover_operations repr stamps ops n e).0
unfolding recover_operations
recover_operations-Returns repr stamps [] n e h = (n, refl)
recover_operations-Returns repr stamps (op ∷ ops) n e (first, rest) =
    let (b, good) = recover_one-Returns repr stamps op e first in
    subst (λ r. Returns r.0) (sym (recover_operations_next repr stamps op ops n e b good))
      (recover_operations-Returns repr stamps ops (one_more b n) (recover_one repr stamps op e).1
        (subst (λ c. AllReady c ops) (sym (recover_one_capabilities repr stamps op e)) rest))

settle_if-Returns :
    (id : String) (t u : Task) (d : Task → Draft) (stamp : Stamp) (r : TaskRuntime) (b : Bool)
    → Returns ((if b then lift (ok t) else touch_and_record id u d stamp) r).0
unfolding touch_and_record
settle_if-Returns id t u d stamp r true = (t, refl)
settle_if-Returns id t u d stamp r false = (_, refl)

settle_control-Returns :
    (id : String) (t : Task) (stamp : Stamp) (r : TaskRuntime)
    → lookup id r.tasks ≡ some t
    → Returns (settle_control id true false stamp r).0
unfolding settle_control
settle_control-Returns id t stamp r h =
    subst (λ p. Returns p.0) (sym (found id r t (settle_found id true false stamp) h))
      (settle_if-Returns id t (record t { state = settled_state true false t })
        (λ u. draft "task.control_settled" "engine" u (control_payload u)) stamp r
        (is_state (settled_state true false t) t.state))

changed-Returns :
    (before : _) (r : Result Task × Engine) → Returns r.0 → Returns (changed before r).0
changed-Returns before (err x, e) (t, h) = cc
changed-Returns before (ok t, e) h = (_, refl)

-- A task that stands under an id.
abbrev pub Present : String → Dict Task → Type 0
Present id d = (t : Task) × (lookup id d ≡ some t)

settle_one-Returns :
    (stamps : String → Stamp) (u : Task) (e : Engine)
    → Present u.task_id e.tasks
    → Returns (settle_one stamps u e).0
unfolding settle_one
settle_one-Returns stamps u e (t, at) = elim (Bool-cases (wants_control u.desired_state)) [
  | inl wants ↦ rw wants (
      changed-Returns u.state (on_tasks (settle_control u.task_id true false (stamps u.task_id)) e)
        (settle_control-Returns u.task_id t (stamps u.task_id) (task_runtime e) at))
  | inr other ↦ rw other (false, refl)
]

abbrev pub AllPresent : Dict Task → List Task → Type 0
AllPresent d = All (λ u. Present u.task_id d)

stay_present :
    (stamps : String → Stamp) (u : Task) (e : Engine) (b : Bool) (ts : List Task)
    → (settle_one stamps u e).0 ≡ ok b
    → AllPresent e.tasks ts
    → AllPresent (settle_one stamps u e).1.tasks ts
stay_present stamps u e b [] good h = tt
stay_present stamps u e b (v ∷ ts) good ((t, at), rest) =
    let (f, now) = round-Follows stamps u e b v.task_id t good at in
    ((f.task, f.present), stay_present stamps u e b ts good rest)

settle_tasks-Returns :
    (stamps : String → Stamp) (ts : List Task) (n : ℕ) (e : Engine)
    → AllPresent e.tasks ts
    → Returns (settle_tasks stamps ts n e).0
unfolding settle_tasks
settle_tasks-Returns stamps [] n e h = (n, refl)
settle_tasks-Returns stamps (u ∷ ts) n e (first, rest) =
    let (b, good) = settle_one-Returns stamps u e first in
    subst (λ r. Returns r.0) (sym (settle_tasks_next stamps u ts n e b good))
      (settle_tasks-Returns stamps ts (one_more b n) (settle_one stamps u e).1
        (stay_present stamps u e b ts good rest))

cons-Present : (id k : String) (u : Task) (d : Dict Task) → Present id d → Present id ((k, u) ∷ d)
unfolding lookup
cons-Present id k u d (t, at) = elim (Bool-cases (k == id)) [
  | inl same ↦ (u, ground (arith, same))
  | inr other ↦ (t, ground (arith, other, at))
]

cons-AllPresent :
    (k : String) (u : Task) (d : Dict Task) (ts : List Task)
    → AllPresent d ts
    → AllPresent ((k, u) ∷ d) ts
cons-AllPresent k u d [] h = tt
cons-AllPresent k u d (v ∷ ts) (first, rest) =
    (cons-Present v.task_id k u d first, cons-AllPresent k u d ts rest)

values-AllPresent : (d : Dict Task) → IsNamed (λ (u : Task). u.task_id) d → AllPresent d (values d)
unfolding lookup
values-AllPresent [] n = tt
values-AllPresent ((k, u) ∷ d) (named, n) = (
  (u, ground (arith, named, eq_refl k)),
  cons-AllPresent k u d (values d) (values-AllPresent d n),
)

then_flush-Returns :
    (k : Moments) (n : ℕ) (r : Result ℕ × Engine) → Returns r.0 → Returns (then_flush k n r).0
unfolding flush
then_flush-Returns k n (err x, e) (m, h) = cc
then_flush-Returns k n (ok m, e) h = ((n, m), refl)

then_settle-Returns :
    (k : Moments) (r : Result ℕ × Engine)
    → Returns r.0
    → Returns (settle_tasks k.task_stamps (values r.1.tasks) 0 r.1).0
    → Returns (then_settle k r).0
then_settle-Returns k (err x, e) (n, h) s = cc
then_settle-Returns k (ok n, e) h s =
    then_flush-Returns k n (settle_tasks k.task_stamps (values e.tasks) 0 e) s

-- A recovery returns, if the capability of each operation that it recovers is known or the operation was
-- only prepared. Then each task that was there is there, and has stopped if it is to: a task whose desired
-- state is PAUSED is paused, and one whose desired state is CANCELLED is cancelled.
pub recover_lem :
    (k : Moments) (e : Engine)
    → IsNamed (λ (u : Task). u.task_id) e.tasks
    → AllReady e.capabilities (values e.operations)
    → ((p : ℕ × ℕ) × ((recover k e).0 ≡ ok p))
      × ((id : String) (t : Task) → lookup id e.tasks ≡ some t → StoppedAt id (recover k e).1.tasks)
unfolding recover
recover_lem k e named ready =
    let r = recover_operations k.repr k.operation_stamps (values e.operations) 0 e in
    let same : r.1.tasks ≡ e.tasks =
      recover_operations_tasks k.repr k.operation_stamps (values e.operations) 0 e in
    let (p, h) : Returns (then_settle k r).0 =
      then_settle-Returns k r
        (recover_operations-Returns k.repr k.operation_stamps (values e.operations) 0 e ready)
        (settle_tasks-Returns k.task_stamps (values r.1.tasks) 0 r.1
          (subst (λ d. AllPresent d (values d)) (sym same) (values-AllPresent e.tasks named))) in
    ((p, h), recover-StoppedAt k e p named h)
