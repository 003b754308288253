-- ===== src/Operations/Admission.antt =====
-- When `prepare` of `OperationRuntime` (liandanlu_native/runtime.py) makes an operation.
use codex_test.Prelude.{
  ℕ, ◌≡◌, ◌↔◌, ◌⊎◌, refl, sym, ap, ◌∙◌, subst, String, true, Option, none, some, List, [], ◌∷◌, inl,
  inr, arith, eq_iff, Result-cases, Result, ok, err, All, Error,
}
use codex_test.Models.{Task, Entity, TaskLease, ResourceLease}
use codex_test.Models.Budget.{block_reason, BlockReason, deadline}
use codex_test.Models.Budget.Laws.{HasRoom, IsInTime, block_reason_iff}
use codex_test.Storage.{Store}
use codex_test.World.{WorldModel, assert_access, then_check}
use codex_test.World.Access.{MayUse, assert_access_iff, current_revision, assert_revisions_iff}
use codex_test.Capabilities.{ActionSpec, find_action, resolve}
use codex_test.Capabilities.Arguments.{Admissible, resolve_iff}
use codex_test.Operations.Runtime.{OperationRuntime, Stamp}
use codex_test.Operations.Prepare.{
  unit_of, assert_all_access, task_lease_holds, resource_lease_holds, check_task_lease,
  check_resource_lease, check_budget, Order, Clock, check_order, make_operation, charged, commit,
  prepare, prepare_with, commit_checked,
}

-- The caller may use the entity under the reference.
abbrev pub IsUsable : WorldModel → String → String → String → Type 0
IsUsable w permission ws ref = (e : Entity) × MayUse w ref permission ws e

unit_iff : (r : Result Entity) → (unit_of r ≡ ok tt) ↔ ((e : Entity) × (r ≡ ok e))
unit_iff (ok e) = (λ h. (e, refl), λ h. refl)
unit_iff (err x) = (λ h. ground (arith, h), λ h. ground (arith, h.1))

then_check_iff : (a b : Result (Unit {0})) → (then_check a b ≡ ok tt) ↔ ((a ≡ ok tt) × (b ≡ ok tt))
then_check_iff (ok u) b = (λ h. (refl, h), λ h. h.1)
then_check_iff (err x) b = (λ h. ground (arith, h), λ h. ground (arith, h.0))

assert_all_access_iff :
    (w : WorldModel) (permission ws : String) (refs : List String)
    → (assert_all_access w permission ws refs ≡ ok tt) ↔ All (IsUsable w permission ws) refs
unfolding assert_all_access
assert_all_access_iff w p ws [] = (λ h. tt, λ h. refl)
assert_all_access_iff w p ws (ref ∷ refs) =
    let both =
      then_check_iff (unit_of (assert_access w ref p ws)) (assert_all_access w p ws refs) in
    let one = unit_iff (assert_access w ref p ws) in
    let rest = assert_all_access_iff w p ws refs in
    (
      λ h.
          let k = both.0 h in
          let e = one.0 k.0 in ((e.0, (assert_access_iff w ref p ws e.0).0 e.1), rest.0 k.1),
      λ h. both.1 (one.1 (h.0.0, (assert_access_iff w ref p ws h.0.0).1 h.0.1), rest.1 h.1),
    )

-- A task lease that a caller brings is for the task and, with a store, is the one held now.
abbrev pub TaskLeaseHolds : Option Store → Task → Option TaskLease → ℕ → Type 0
TaskLeaseHolds store t none at = Unit
TaskLeaseHolds store t (some lease) at =
    (lease.task_id ≡ t.task_id)
    × (task_lease_holds store t.task_id lease.owner_id lease.generation at ≡ true)

abbrev pub ResourceLeaseHolds : Option Store → Task → Option ResourceLease → ℕ → Type 0
ResourceLeaseHolds store t none at = Unit
ResourceLeaseHolds store t (some lease) at =
    (lease.task_id ≡ t.task_id)
    × (resource_lease_holds store t.task_id lease.owner_id lease.generation at ≡ true)

check_task_lease_iff :
    (store : Option Store) (t : Task) (lease : Option TaskLease) (at : ℕ)
    → (check_task_lease store t lease at ≡ ok tt) ↔ TaskLeaseHolds store t lease at
check_task_lease_iff store t none at = (λ h. tt, λ h. refl)
check_task_lease_iff store t (some lease) at =
    let same = eq_iff lease.task_id t.task_id in
    (λ h. ground (arith, h, same), λ h. ground (arith, h.0, h.1, same))

check_resource_lease_iff :
    (store : Option Store) (t : Task) (lease : Option ResourceLease) (at : ℕ)
    → (check_resource_lease store t lease at ≡ ok tt) ↔ ResourceLeaseHolds store t lease at
check_resource_lease_iff store t none at = (λ h. tt, λ h. refl)
check_resource_lease_iff store t (some lease) at =
    let same = eq_iff lease.task_id t.task_id in
    (λ h. ground (arith, h, same), λ h. ground (arith, h.0, h.1, same))

check_budget_iff : (o : Option BlockReason) → (check_budget o ≡ ok tt) ↔ (o ≡ none)
check_budget_iff none = (λ h. refl, λ h. refl)
check_budget_iff (some BlockReason.max_operations) =
    (λ h. ground (arith, h), λ h. ground (arith, h))
check_budget_iff (some deadline) = (λ h. ground (arith, h), λ h. ground (arith, h))

-- What `prepare` demands.
pub record Demands (lower : String → String) (r : OperationRuntime) (t : Task) (o : Order)
    (clock : Clock) (spec : ActionSpec) : Type 0 where
  pub registered : find_action o.proposal.capability o.proposal.action r.registry ≡ some spec
  pub admissible : Admissible lower spec o.proposal
  pub current :
      All (λ e. current_revision r.world (some t.workspace_id) e.0 ≡ some e.1) o.expected_revisions
  pub usable : All (IsUsable r.world spec.required_permission t.workspace_id) o.proposal.object_refs
  pub task_held : TaskLeaseHolds r.world.persistence t o.task_lease clock.task_lease_at
  pub resource_held :
      ResourceLeaseHolds r.world.persistence t o.resource_lease clock.resource_lease_at
  pub room : HasRoom t.budget.max_operations t.budget.operations_started
  pub in_time : IsInTime t.budget.deadline_at clock.budget_at

check_order-ok :
    (lower : String → String) (r : OperationRuntime) (t : Task) (o : Order) (clock : Clock)
    (spec : ActionSpec)
    → resolve lower r.registry o.proposal ≡ ok spec
    → check_order r.world t o clock spec ≡ ok tt
    → Demands lower r t o clock spec
unfolding check_order
check_order-ok lower r t o clock spec found h =
    let one = (then_check_iff _ _).0 h in
    let two = (then_check_iff _ _).0 one.1 in
    let three = (then_check_iff _ _).0 two.1 in
    let four = (then_check_iff _ _).0 three.1 in
    let known = (resolve_iff lower r.registry o.proposal spec).0 found in
    let budget =
      (block_reason_iff t.budget clock.budget_at).0
        ((check_budget_iff (block_reason t.budget clock.budget_at)).0 four.1) in
    record {
      registered = known.0;
      admissible = known.1;
      current = (assert_revisions_iff r.world o.expected_revisions (some t.workspace_id)).0 one.0;
      usable =
          (assert_all_access_iff r.world spec.required_permission t.workspace_id
              o.proposal.object_refs).0
            two.0;
      task_held =
          (check_task_lease_iff r.world.persistence t o.task_lease clock.task_lease_at).0 three.0;
      resource_held =
          (check_resource_lease_iff r.world.persistence t o.resource_lease
              clock.resource_lease_at).0
            four.0;
      room = budget.0;
      in_time = budget.1;
    }

Demands-check_order :
    (lower : String → String) (r : OperationRuntime) (t : Task) (o : Order) (clock : Clock)
    (spec : ActionSpec)
    → Demands lower r t o clock spec
    → check_order r.world t o clock spec ≡ ok tt
unfolding check_order
Demands-check_order lower r t o clock spec d = (then_check_iff _ _).1 (
  (assert_revisions_iff r.world o.expected_revisions (some t.workspace_id)).1 d.current,
  (then_check_iff _ _).1 (
    (assert_all_access_iff r.world spec.required_permission t.workspace_id o.proposal.object_refs).1
        d.usable,
    (then_check_iff _ _).1 (
      (check_task_lease_iff r.world.persistence t o.task_lease clock.task_lease_at).1 d.task_held,
      (then_check_iff _ _).1 (
        (check_resource_lease_iff r.world.persistence t o.resource_lease clock.resource_lease_at).1
            d.resource_held,
        (check_budget_iff (block_reason t.budget clock.budget_at)).1
            ((block_reason_iff t.budget clock.budget_at).1 (d.room, d.in_time)),
      ),
    ),
  ),
)

-- `prepare` has succeeded: the operation is made from the proposal and the spec, and the task is charged.
abbrev pub Prepared :
    (String → String) → String → Task → Order → Clock → Stamp → OperationRuntime → Type 0
Prepared lower id t o clock stamp r =
    (spec : ActionSpec) × Demands lower r t o clock spec
    × (prepare lower id t o clock stamp r ≡ (
      ok (charged t, make_operation id t o spec),
      commit (charged t) (make_operation id t o spec) stamp r,
    ))

abbrev pub Refused :
    (String → String) → String → Task → Order → Clock → Stamp → OperationRuntime → Type 0
Refused lower id t o clock stamp r =
    (x : Error) × (prepare lower id t o clock stamp r ≡ (err x, r))
    × ((spec : ActionSpec) → Demands lower r t o clock spec → ⊥)

-- `prepare` makes an operation exactly if all its demands are met: the action is registered and the
-- arguments are admissible, the expected revisions are current, the caller may use every object, the
-- leases it brings are held, and the budget has room and time. It then charges the task with one
-- operation. Otherwise it raises and changes nothing.
pub prepare_lem :
    (lower : String → String) (id : String) (t : Task) (o : Order) (clock : Clock) (stamp : Stamp)
    (r : OperationRuntime)
    → Prepared lower id t o clock stamp r ⊎ Refused lower id t o clock stamp r
unfolding prepare
prepare_lem lower id t o clock stamp r = elim (Result-cases (resolve lower r.registry o.proposal)) [
  | inl (x, e) ↦ inr (
    x,
    ap (λ k. prepare_with k id t o clock stamp r) e,
    λ spec d.
        ground
          (arith, e, (resolve_iff lower r.registry o.proposal spec).1 (d.registered, d.admissible)),
  )
  | inr (spec, e) ↦
      let run = ap (λ k. prepare_with k id t o clock stamp r) e in
      elim (Result-cases (check_order r.world t o clock spec)) [
        | inl (x, bad) ↦ inr (
          x,
          run ∙ ap (λ k. commit_checked k (charged t) (make_operation id t o spec) stamp r) bad,
          λ other d.
              let same : spec ≡ other = ground (
                arith,
                e,
                (resolve_iff lower r.registry o.proposal other).1 (d.registered, d.admissible),
              ) in
              ground (
                arith,
                bad,
                Demands-check_order lower r t o clock spec
                    (subst (Demands lower r t o clock) (sym same) d),
              ),
        )
        | inr (tt, good) ↦ inl (
          spec,
          check_order-ok lower r t o clock spec e good,
          run ∙ ap (λ k. commit_checked k (charged t) (make_operation id t o spec) stamp r) good,
        )
      ]
]
