-- ===== src/Operations/Execution.antt =====
-- When `execute` of `OperationRuntime` (liandanlu_native/runtime.py) reaches the side effect.
use codex_test.Prelude.{
  ℕ, ◌≡◌, ◌↔◌, ◌⊎◌, refl, ap, String, Bool, true, Option, none, some, List, [], ◌∷◌, inl, inr,
  arith, Result-cases, Result, ok, err, Error,
}
use codex_test.Prelude.Dict.{lookup}
use codex_test.Models.{Operation, Entity}
use codex_test.Storage.{Store}
use codex_test.Storage.TaskLeases.{validate_task_lease_identity}
use codex_test.Storage.ResourceLeases.{validate_resource_lease_identity}
use codex_test.World.{WorldModel, assert_access, resolve_locator}
use codex_test.World.Access.{MayUse, assert_access_iff, current_revision, assert_revisions_iff}
use codex_test.Operations.Runtime.{OperationRuntime, Capability}
use codex_test.Operations.Execute.{
  Stamps, check_lease, check_task, check_resource, locators_with, resolve_locators, or_missing,
  pass_on, pair_of, admit, carry_out, execute, execute_with,
}
use codex_test.Prelude.{All}

-- The locators are those of entities that the caller may use, one for each reference.
abbrev pub Locates : WorldModel → String → String → List String → List String → Type 0
Locates w p ws [] [] = Unit
Locates w p ws [] (l ∷ ls) = ⊥
Locates w p ws (ref ∷ refs) [] = ⊥
Locates w p ws (ref ∷ refs) (l ∷ ls) =
    ((e : Entity) × MayUse w ref p ws e × (e.locator ≡ l)) × Locates w p ws refs ls

locator_iff :
    (w : WorldModel) (p ws ref l : String)
    → (resolve_locator w ref p (some ws) ≡ ok l)
      ↔ ((e : Entity) × MayUse w ref p ws e × (e.locator ≡ l))
unfolding resolve_locator
locator_iff w p ws ref l = elim (Result-cases (assert_access w ref p ws)) [
  | inl (x, e) ↦
      (λ h. ground (arith, e, h), λ h. ground (arith, e, (assert_access_iff w ref p ws h.0).1 h.1))
  | inr (found, e) ↦ (
    λ h. (found, (assert_access_iff w ref p ws found).0 e, ground (arith, e, h)),
    λ h. ground (arith, e, (assert_access_iff w ref p ws h.0).1 h.1, h.2),
  )
]

locators_with-nil : (a : Result String) (b : Result (List String)) → locators_with a b ≡ ok [] → ⊥
locators_with-nil (err x) b h = ground (arith, h)
locators_with-nil (ok k) (err x) h = ground (arith, h)
locators_with-nil (ok k) (ok ks) h = ground (arith, h)

locators_with-cons :
    (a : Result String) (b : Result (List String)) (l : String) (ls : List String)
    → locators_with a b ≡ ok (l ∷ ls)
    → (a ≡ ok l) × (b ≡ ok ls)
locators_with-cons (err x) b l ls h = ground (arith, h)
locators_with-cons (ok k) (err x) l ls h = ground (arith, h)
locators_with-cons (ok k) (ok ks) l ls h = (ground (arith, h), ground (arith, h))

resolve_locators_iff :
    (w : WorldModel) (p ws : String) (refs ls : List String)
    → (resolve_locators w p ws refs ≡ ok ls) ↔ Locates w p ws refs ls
unfolding resolve_locators
resolve_locators_iff w p ws [] [] = (λ h. tt, λ h. refl)
resolve_locators_iff w p ws [] (l ∷ ls) = (λ h. ground (arith, h), λ h. ground (arith, h))
resolve_locators_iff w p ws (ref ∷ refs) [] = (λ h. locators_with-nil _ _ h, λ h. ground (arith, h))
resolve_locators_iff w p ws (ref ∷ refs) (l ∷ ls) =
    let one = locator_iff w p ws ref l in
    let rest = resolve_locators_iff w p ws refs ls in
    (
      λ h. let k = locators_with-cons _ _ l ls h in (one.0 k.0, rest.0 k.1),
      λ h. ground (arith, one.1 h.0, rest.1 h.1),
    )

-- A lease that an operation names is the one held now, as far as there is a store that knows.
abbrev pub IsHeld : Option String → Option ℕ → (String → ℕ → Bool) → Type 0
IsHeld none generation holds = Unit
IsHeld (some owner) none holds = ⊥
IsHeld (some owner) (some generation) holds = holds owner generation ≡ true

check_lease_iff :
    (owner : Option String) (generation : Option ℕ) (holds : String → ℕ → Bool)
    → (check_lease owner generation holds ≡ ok tt) ↔ IsHeld owner generation holds
check_lease_iff none generation holds = (λ h. tt, λ h. refl)
check_lease_iff (some owner) none holds = (λ h. ground (arith, h), λ h. ground (arith, h))
check_lease_iff (some owner) (some generation) holds =
    (λ h. ground (arith, h), λ h. ground (arith, h))

abbrev pub TaskIsHeld : Option Store → Operation → ℕ → Type 0
TaskIsHeld none op at = Unit
TaskIsHeld (some s) op at =
    IsHeld op.task_lease_owner_id op.task_lease_generation
      (λ owner generation. validate_task_lease_identity op.task_id owner generation at s)

abbrev pub ResourceIsHeld : Option Store → Operation → ℕ → Type 0
ResourceIsHeld none op at = Unit
ResourceIsHeld (some s) op at =
    IsHeld op.resource_lease_owner_id op.resource_lease_generation
      (λ owner generation. validate_resource_lease_identity op.task_id owner generation at s)

check_task_iff :
    (store : Option Store) (op : Operation) (at : ℕ)
    → (check_task store op at ≡ ok tt) ↔ TaskIsHeld store op at
check_task_iff none op at = (λ h. tt, λ h. refl)
check_task_iff (some s) op at = check_lease_iff op.task_lease_owner_id op.task_lease_generation _

check_resource_iff :
    (store : Option Store) (op : Operation) (at : ℕ)
    → (check_resource store op at ≡ ok tt) ↔ ResourceIsHeld store op at
check_resource_iff none op at = (λ h. tt, λ h. refl)
check_resource_iff (some s) op at =
    check_lease_iff op.resource_lease_owner_id op.resource_lease_generation _

-- What `execute` demands before it calls the capability with the locators.
pub record Admitted (r : OperationRuntime) (op : Operation) (task_at resource_at : ℕ)
    (c : Capability) (locators : List String) : Type 0 where
  pub task_held : TaskIsHeld r.world.persistence op task_at
  pub resource_held : ResourceIsHeld r.world.persistence op resource_at
  pub known : lookup op.capability r.capabilities ≡ some c
  pub current :
      All
        (λ e. current_revision r.world (some op.workspace_id) e.0 ≡ some e.1)
        op.expected_revisions
  pub located : Locates r.world op.required_permission op.workspace_id op.object_refs locators

pass_on-ok :
    {A : Type 0} (a : Result (Unit {0})) (b : Result A) (v : A)
    → (pass_on a b ≡ ok v) ↔ ((a ≡ ok tt) × (b ≡ ok v))
pass_on-ok (ok u) b v = (λ h. (refl, h), λ h. h.1)
pass_on-ok (err x) b v = (λ h. ground (arith, h), λ h. ground (arith, h.0))

pair_of-ok :
    (a : Option Capability) (b : Result (Unit {0})) (d : Result (List String)) (c : Capability)
    (ls : List String)
    → (pair_of (or_missing a) b d ≡ ok (c, ls)) ↔ ((a ≡ some c) × (b ≡ ok tt) × (d ≡ ok ls))
pair_of-ok none b d c ls = (λ h. ground (arith, h), λ h. ground (arith, h.0))
pair_of-ok (some k) (err x) d c ls = (λ h. ground (arith, h), λ h. ground (arith, h.1))
pair_of-ok (some k) (ok u) (err x) c ls = (λ h. ground (arith, h), λ h. ground (arith, h.2))
pair_of-ok (some k) (ok u) (ok ms) c ls =
    (λ h. (ground (arith, h), refl, ground (arith, h)), λ h. ground (arith, h.0, h.2))

admit_iff :
    (r : OperationRuntime) (op : Operation) (task_at resource_at : ℕ) (c : Capability)
    (ls : List String)
    → (admit r op task_at resource_at ≡ ok (c, ls)) ↔ Admitted r op task_at resource_at c ls
unfolding admit
admit_iff r op task_at resource_at c ls =
    let task = check_task_iff r.world.persistence op task_at in
    let resource = check_resource_iff r.world.persistence op resource_at in
    let revisions = assert_revisions_iff r.world op.expected_revisions (some op.workspace_id) in
    let locators =
      resolve_locators_iff r.world op.required_permission op.workspace_id op.object_refs ls in
    (
      λ h.
          let one = (pass_on-ok _ _ (c, ls)).0 h in
          let two = (pass_on-ok _ _ (c, ls)).0 one.1 in
          let three = (pair_of-ok _ _ _ c ls).0 two.1 in
          record {
            task_held = task.0 one.0;
            resource_held = resource.0 two.0;
            known = three.0;
            current = revisions.0 three.1;
            located = locators.0 three.2;
          },
      λ a. (pass_on-ok _ _ (c, ls)).1 (
        task.1 a.task_held,
        (pass_on-ok _ _ (c, ls)).1 (
          resource.1 a.resource_held,
          (pair_of-ok _ _ _ c ls).1 (a.known, revisions.1 a.current, locators.1 a.located),
        ),
      ),
    )

-- `execute` calls the capability exactly if the leases that the operation names are still held, the
-- capability is known, the revisions that the operation expects are current and every object may be used;
-- the locators it passes on are those of these objects. Otherwise it raises and changes nothing.
pub execute_lem :
    (r : OperationRuntime) (op : Operation) (task_at resource_at : ℕ) (stamps : Stamps)
    → ((c : Capability) × (ls : List String) × Admitted r op task_at resource_at c ls
        × (execute op task_at resource_at stamps r
            ≡ (ok (carry_out op c ls stamps r).0, (carry_out op c ls stamps r).1)))
      ⊎ ((x : Error) × (execute op task_at resource_at stamps r ≡ (err x, r))
          × ((c : Capability) (ls : List String) → Admitted r op task_at resource_at c ls → ⊥))
unfolding execute
execute_lem r op task_at resource_at stamps = elim (Result-cases (admit r op task_at resource_at)) [
  | inl (x, e) ↦ inr (
    x,
    ap (λ k. execute_with k op stamps r) e,
    λ c ls a. ground (arith, e, (admit_iff r op task_at resource_at c ls).1 a),
  )
  | inr ((c, ls), e) ↦
      inl (
        c,
        ls,
        (admit_iff r op task_at resource_at c ls).0 e,
        ap (λ k. execute_with k op stamps r) e,
      )
]
