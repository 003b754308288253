-- ===== src/Tasks/Goals.antt =====
-- When `evaluate_goal` of `TaskRuntime` (liandanlu_native/runtime.py) completes a task.
use codex_test.Prelude.{
  ◌≡◌, ◌≢◌, ◌⊎◌, ◌↔◌, refl, sym, ap, ◌∙◌, String, true, false, some, List, [], ◌∷◌, inl, inr, arith,
  Option-cases, Bool-cases, ok, All, is_nil_iff, select_pass, select_fail,
}
use codex_test.Prelude.Dict.{Dict, lookup}
use codex_test.Models.{Task, GoalClaim}
use codex_test.Models.States.{running, completed}
use codex_test.Tasks.Runtime.{
  TaskRuntime, Stamp, touched, evaluate_goal, evaluate_found, evaluate_draft, evaluated,
  missing_criteria, is_missing,
}
use codex_test.Tasks.Effects.{IsShared, touch_and_record_lem}
use codex_test.Tasks.Calls.{found}

-- A claim on the criterion that has passed, with evidence.
pub record Proven (claims : Dict GoalClaim) (criterion : String) : Type 0 where
  pub claim : GoalClaim
  pub claimed : lookup criterion claims ≡ some claim
  pub passed : claim.passed ≡ true
  pub evident : claim.evidence_refs ≢ []

claim-Proven :
    (claims : Dict GoalClaim) (criterion : String) (c : GoalClaim)
    → lookup criterion claims ≡ some c
    → is_missing (some c) ≡ false
    → Proven claims criterion
claim-Proven claims criterion c h e = record {
  claim = c;
  claimed = h;
  passed = ground (arith, e);
  evident = λ k. ground (arith, e, (is_nil_iff c.evidence_refs).1 k);
}

not_missing-Proven :
    (claims : Dict GoalClaim) (criterion : String)
    → is_missing (lookup criterion claims) ≡ false
    → Proven claims criterion
not_missing-Proven claims criterion e = elim (Option-cases (lookup criterion claims)) [
  | inl absent ↦ ground (arith, absent, e)
  | inr (c, h) ↦ claim-Proven claims criterion c h (ap is_missing (sym h) ∙ e)
]

Proven-not_missing :
    (claims : Dict GoalClaim) (criterion : String)
    → Proven claims criterion
    → is_missing (lookup criterion claims) ≡ false
Proven-not_missing claims criterion p =
    ap is_missing p.claimed ∙ ground (arith, p.passed, p.evident, is_nil_iff p.claim.evidence_refs)

missing-All :
    (criteria : List String) (claims : Dict GoalClaim)
    → (missing_criteria criteria claims ≡ []) ↔ All (Proven claims) criteria
unfolding missing_criteria
missing-All [] claims = (λ h. tt, λ h. refl)
missing-All (c ∷ cs) claims = elim (Bool-cases (is_missing (lookup c claims))) [
  | inl absent ↦ (
    λ h. ground (arith, h, select_pass (λ k. is_missing (lookup k claims)) c cs absent),
    λ h. ground (arith, Proven-not_missing claims c h.0, absent),
  )
  | inr present ↦
      let same = select_fail (λ k. is_missing (lookup k claims)) c cs present in
      (
        λ h. (not_missing-Proven claims c present, (missing-All cs claims).0 (sym same ∙ h)),
        λ h. same ∙ (missing-All cs claims).1 h.1,
      )
]

evaluated_iff :
    (missing : List String) (t : Task) → ((evaluated missing t).state ≡ completed) ↔ (missing ≡ [])
evaluated_iff [] t = (λ h. refl, λ h. refl)
evaluated_iff (c ∷ cs) t = (λ h. ground (arith, h), λ h. ground (arith, h))

evaluated-states :
    (missing : List String) (t : Task)
    → ((evaluated missing t).state ≡ completed) ⊎ ((evaluated missing t).state ≡ running)
evaluated-states [] t = inl refl
evaluated-states (c ∷ cs) t = inr refl

-- Evaluating the goal of a task that exists returns it and stores it, and it is completed exactly when
-- every criterion has a claim that has passed and that names evidence; otherwise it runs on.
pub evaluate_goal_iff :
    (id : String) (claims : Dict GoalClaim) (stamp : Stamp) (r : TaskRuntime) (t : Task)
    → IsShared r
    → lookup id r.tasks ≡ some t
    → (u : Task) × ((evaluate_goal id claims stamp r).0 ≡ ok u)
      × (lookup id (evaluate_goal id claims stamp r).1.tasks ≡ some u)
      × ((u.state ≡ completed) ⊎ (u.state ≡ running))
      × ((u.state ≡ completed) ↔ All (Proven claims) t.success_criteria)
unfolding evaluate_goal
evaluate_goal_iff id claims stamp r t s h =
    let missing = missing_criteria t.success_criteria claims in
    let k = touch_and_record_lem id (evaluated missing t) (evaluate_draft missing) stamp r s in
    let same = found id r t (evaluate_found id claims stamp) h in
    let done = evaluated_iff missing t in
    let all = missing-All t.success_criteria claims in
    (
      touched (evaluated missing t),
      ap (λ o. o.0) same ∙ k.0,
      ap (λ o. lookup id o.1.tasks) same ∙ k.1.written,
      evaluated-states missing t,
      (λ e. all.0 (done.0 e), λ e. done.1 (all.1 e)),
    )
