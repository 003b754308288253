-- ===== src/Policy.antt =====
-- liandanlu_native/policy.py: which actions a workspace allows. Sets are lists.
use codex_test.Prelude.{
  ◌≡◌, ◌↔◌, String, Bool, true, false, Option, none, some, List, [], ◌∷◌, inl, inr, arith, contains,
  some_of, decide, if◌then◌else◌, Option-cases,
}
use codex_test.Prelude.Dict.{Dict, lookup}
use codex_test.Models.States.{
  RiskClass, RiskClass-discrete, read, reversible, mutating, external, destructive,
}

pub data PolicyDecision : Type 0 where
  allow deny require_confirmation : PolicyDecision

pub record WorkspacePolicy : Type 0 where
  pub allowed_capabilities : List String
  pub denied_actions : List String
  pub confirm_risks : List RiskClass
  pub allow_risks : List RiskClass

-- `WorkspacePolicy(allowed_capabilities=…)`
abbrev pub default_policy : List String → WorkspacePolicy
default_policy capabilities = record {
  allowed_capabilities = capabilities;
  denied_actions = [];
  confirm_risks = mutating ∷ external ∷ destructive ∷ [];
  allow_risks = read ∷ reversible ∷ [];
}

abbrev pub contains_risk : RiskClass → List RiskClass → Bool
contains_risk risk = some_of (λ r. decide (RiskClass-discrete r risk))

abbrev decide_with : Option WorkspacePolicy → String → String → RiskClass → PolicyDecision
decide_with none capability action risk = deny
decide_with (some p) capability action risk =
    if contains action p.denied_actions
    then deny
    else if contains capability p.allowed_capabilities
    then if contains_risk risk p.confirm_risks
      then require_confirmation
      else if contains_risk risk p.allow_risks
      then allow
      else deny
    else deny

unfoldable pub evaluate :
    Dict WorkspacePolicy → String → String → String → RiskClass → PolicyDecision
evaluate policies workspace_id capability action risk =
    decide_with (lookup workspace_id policies) capability action risk

-- The action is open to the capability in a workspace that has a policy.
pub record Open (p : WorkspacePolicy) (policies : Dict WorkspacePolicy)
    (ws capability action : String) : Type 0 where
  pub known : lookup ws policies ≡ some p
  pub not_denied : contains action p.denied_actions ≡ false
  pub listed : contains capability p.allowed_capabilities ≡ true

-- An action is allowed at once exactly if the workspace has a policy under which it is open and its risk
-- is among those allowed and not among those to confirm; it waits for a confirmation exactly if it is open
-- and its risk is among those to confirm. Everything else, an unknown workspace included, is denied.
pub evaluate_iff :
    (policies : Dict WorkspacePolicy) (ws capability action : String) (risk : RiskClass)
    → ((evaluate policies ws capability action risk ≡ allow) ↔ (
        (p : WorkspacePolicy) × Open p policies ws capability action
        × (contains_risk risk p.confirm_risks ≡ false)
        × (contains_risk risk p.allow_risks ≡ true)))
      × ((evaluate policies ws capability action risk ≡ require_confirmation) ↔ (
          (p : WorkspacePolicy) × Open p policies ws capability action
          × (contains_risk risk p.confirm_risks ≡ true)))
unfolding evaluate
evaluate_iff policies ws capability action risk = elim (Option-cases (lookup ws policies)) [
  | inl unknown ↦ (
    (λ h. ground (arith, unknown, h), λ h. ground (arith, unknown, h.1.known)),
    (λ h. ground (arith, unknown, h), λ h. ground (arith, unknown, h.1.known)),
  )
  | inr (p, e) ↦ (
    (
      λ h. (
        p,
        record { known = e; not_denied = ground (arith, e, h); listed = ground (arith, e, h) },
        ground (arith, e, h),
        ground (arith, e, h),
      ),
      λ h. ground (arith, h.1.known, h.1.not_denied, h.1.listed, h.2, h.3),
    ),
    (
      λ h. (
        p,
        record { known = e; not_denied = ground (arith, e, h); listed = ground (arith, e, h) },
        ground (arith, e, h),
      ),
      λ h. ground (arith, h.1.known, h.1.not_denied, h.1.listed, h.2),
    ),
  )
]
