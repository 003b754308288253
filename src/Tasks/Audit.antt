-- ===== src/Tasks/Audit.antt =====
-- Histories of calls of `TaskRuntime` (liandanlu_native/runtime.py): the events they leave.
use codex_test.Prelude.{
  ◌+◌, ◌≡◌, refl, sym, ap, ◌∙◌, subst, String, Option, none, List, [], ◌∷◌, inl, inr, arith,
  Option-cases, err, key_error,
}
use codex_test.Prelude.Int.{ℤ}
use codex_test.Prelude.Dict.{lookup, IsNamed, lookup-IsNamed}
use codex_test.Models.{Task}
use codex_test.Models.Budget.{TaskBudget}
use codex_test.Storage.Outbox.{Draft}
use codex_test.Tasks.Runtime.{
  TaskRuntime, Stamp, create, queue_found, wait_found, update_found, control_found, settle_found,
  evaluate_found, queue, wait, update_runtime_state, control, settle_control, evaluate_goal,
}
use codex_test.Tasks.Effects.{IsShared, stored_and_recorded, outbox_size}
use codex_test.Tasks.Calls.{
  TaskCall, queues, waits, updates, controls, settles, evaluates, perform, written, perform-Outcome,
  not_found,
}

pub data Request : Type 0 where
  creates :
      String
      → String
      → List String
      → String
      → List String
      → String
      → ℤ
      → Option TaskBudget
      → Request
  calls : String → TaskCall → Request

unfoldable pub serve : Request → Stamp → TaskRuntime → TaskRuntime
unfolding perform create
serve (creates id goal criteria workspace constraints lane priority budget) stamp r =
    (create id goal criteria workspace constraints lane priority budget stamp r).1
serve (calls id call) stamp r = (perform id call stamp r).1

unfoldable pub serve_all : List (Request × Stamp) → TaskRuntime → TaskRuntime
unfolding serve
serve_all [] r = r
serve_all ((request, stamp) ∷ requests) r = serve_all requests (serve request stamp r)

missing-unchanged :
    (id : String) (call : TaskCall) (stamp : Stamp) (r : TaskRuntime)
    → lookup id r.tasks ≡ none
    → perform id call stamp r ≡ (err key_error, r)
unfolding perform queue wait update_runtime_state control settle_control evaluate_goal
missing-unchanged id (queues at) stamp r h = not_found id r (queue_found id at stamp) h
missing-unchanged id (waits reason kind) stamp r h =
    not_found id r (wait_found id reason kind stamp) h
missing-unchanged id (updates state phase kind actor) stamp r h =
    not_found id r (update_found id state phase kind actor stamp) h
missing-unchanged id (controls desired) stamp r h =
    not_found id r (control_found id desired stamp) h
missing-unchanged id (settles safe confirmed) stamp r h =
    not_found id r (settle_found id safe confirmed stamp) h
missing-unchanged id (evaluates claims) stamp r h =
    not_found id r (evaluate_found id claims stamp) h

-- What a request leaves: nothing, or one task written under its own id with one event.
pub data Served (stamp : Stamp) (r r' : TaskRuntime) : Type 0 where
  unchanged : r' ≡ r → Served stamp r r'
  wrote :
      (id : String) (u : Task) (d : Draft)
      → (IsNamed (λ (t : Task). t.task_id) r.tasks → u.task_id ≡ id)
      → r' ≡ written id u d stamp r
      → Served stamp r r'

pub serve-Served :
    (q : Request) (stamp : Stamp) (r : TaskRuntime) → Served stamp r (serve q stamp r)
unfolding serve create
serve-Served (creates id goal criteria workspace constraints lane priority budget) stamp r =
    wrote id _ _ (λ n. refl) refl
serve-Served (calls id call) stamp r = elim (Option-cases (lookup id r.tasks)) [
  | inl absent ↦ unchanged (ap (λ o. o.1) (missing-unchanged id call stamp r absent))
  | inr (t, present) ↦ elim (perform-Outcome id call stamp r t present) [
    | inl same ↦ unchanged same
    | inr (u, d, f, e) ↦
        wrote id u d (λ n. f.same_id ∙ lookup-IsNamed (λ t. t.task_id) id t r.tasks n present) e
  ]
]

-- As many events more as revisions more.
record Balanced (r r' : TaskRuntime) : Type 0 where
  even : outbox_size r' + r.world.revisions.tasks ≡ outbox_size r + r'.world.revisions.tasks
  shared : IsShared r'

Served-Balanced :
    (stamp : Stamp) (r r' : TaskRuntime) → IsShared r → Served stamp r r' → Balanced r r'
Served-Balanced stamp r r' h (unchanged e) =
    subst (Balanced r) (sym e) (record { even = refl; shared = h })
Served-Balanced stamp r r' h (wrote id u d named e) =
    let t = stored_and_recorded id u d stamp r h in
    subst (Balanced r) (sym e)
      (record { even = omega (arith, t.one_event, t.one_revision); shared = t.shared })

Balanced-trans : (a b c : TaskRuntime) → Balanced a b → Balanced b c → Balanced a c
Balanced-trans a b c h k = record { even = omega (arith, h.even, k.even); shared = k.shared }

serve_all-Balanced :
    (requests : List (Request × Stamp)) (r : TaskRuntime)
    → IsShared r
    → Balanced r (serve_all requests r)
unfolding serve_all
serve_all-Balanced [] r h = record { even = refl; shared = h }
serve_all-Balanced ((request, stamp) ∷ requests) r h =
    let first = Served-Balanced stamp r (serve request stamp r) h (serve-Served request stamp r) in
    Balanced-trans r (serve request stamp r) _ first (serve_all-Balanced requests _ first.shared)

-- In every history of calls each revision of the tasks comes with exactly one event, and no event comes
-- without one: the outbox grows by as much as the revision of the tasks.
pub serve_all-outbox_size :
    (requests : List (Request × Stamp)) (r : TaskRuntime)
    → IsShared r
    → outbox_size (serve_all requests r) + r.world.revisions.tasks
      ≡ outbox_size r + (serve_all requests r).world.revisions.tasks
serve_all-outbox_size requests r h = (serve_all-Balanced requests r h).even
