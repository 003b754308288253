-- ===== src/Operations/Verdict.antt =====
-- When an operation of `OperationRuntime` (liandanlu_native/runtime.py) is verified.
use codex_test.Prelude.{
  ◌≡◌, ◌≢◌, ◌↔◌, refl, subst, String, true, Option, none, some, List, [], ◌∷◌, arith, eq_iff, All,
  every, is_nil_iff,
}
use codex_test.Prelude.Dict.{Dict, lookup}
use codex_test.Prelude.Json.{Value, null, boolean, number, text, array, object}
use codex_test.Models.{Operation}
use codex_test.Models.States.{running, verifying, verified}
use codex_test.Operations.Runtime.{OperationRuntime, Capability, Call, returned, raised, Stamp}
use codex_test.Operations.Execute.{
  Stamps, is_text, is_pass, verdict, judged, verify_operation, observed_with, carry_out,
}

is_text_iff : (s : String) (v : Option Value) → (is_text s v ≡ true) ↔ (v ≡ some (text s))
is_text_iff s none = (λ h. ground (arith, h), λ h. ground (arith, h))
is_text_iff s (some (text t)) =
    (λ h. ground (arith, h, eq_iff t s), λ h. ground (arith, h, eq_iff t s))
is_text_iff s (some null) = (λ h. ground (arith, h), λ h. ground (arith, h))
is_text_iff s (some (boolean b)) = (λ h. ground (arith, h), λ h. ground (arith, h))
is_text_iff s (some (number n)) = (λ h. ground (arith, h), λ h. ground (arith, h))
is_text_iff s (some (array v)) = (λ h. ground (arith, h), λ h. ground (arith, h))
is_text_iff s (some (object v)) = (λ h. ground (arith, h), λ h. ground (arith, h))

-- The item says that its check has passed.
abbrev pub IsPassed : Dict Value → Type 0
IsPassed item = lookup "status" item ≡ some (text "pass")

every-All : (items : List (Dict Value)) → (every is_pass items ≡ true) ↔ All IsPassed items
every-All [] = (λ h. tt, λ h. refl)
every-All (item ∷ items) =
    let one = is_text_iff "pass" (lookup "status" item) in
    let rest = every-All items in
    (
      λ h. (one.0 (ground (arith, h)), rest.0 (ground (arith, h))),
      λ h. ground (arith, one.1 h.0, rest.1 h.1),
    )

-- There is evidence, and all of it has passed.
abbrev pub Convincing : List (Dict Value) → Type 0
Convincing evidence = (evidence ≢ []) × All IsPassed evidence

verdict_iff : (evidence : List (Dict Value)) → (verdict evidence ≡ verified) ↔ Convincing evidence
unfolding verdict
verdict_iff evidence =
    let all = every-All evidence in
    let nil = is_nil_iff evidence in
    (
      λ h. (λ e. ground (arith, h, nil.1 e), all.0 (ground (arith, h))),
      λ h. ground (arith, h.0, nil, all.1 h.1),
    )

-- The verifier of the capability has returned evidence that convinces.
abbrev pub Verifies : Capability → Operation → Dict Value → Type 0
Verifies c op result =
    (evidence : List (Dict Value)) × (c.verify op result ≡ returned evidence) × Convincing evidence

pub judged_iff :
    (op : Operation) (stamp : Stamp) (call : Call (List (Dict Value))) (r : OperationRuntime)
    → op.state ≡ verifying
    → ((judged op stamp call r).0.state ≡ verified)
      ↔ ((evidence : List (Dict Value)) × (call ≡ returned evidence) × Convincing evidence)
judged_iff op stamp (raised e) r h = (λ k. ground (arith, k, h), λ k. ground (arith, k.1))
judged_iff op stamp (returned evidence) r h = (
  λ k. (evidence, refl, (verdict_iff evidence).0 k),
  λ k.
      let same : k.0 ≡ evidence = ground (arith, k.1) in
      (verdict_iff evidence).1 (subst Convincing same k.2),
)

-- The result and the state that an operation has when its verifier is asked.
abbrev pub verifying_with : Operation → Dict Value → Operation
verifying_with op result = record op { result = some result; state = verifying }

abbrev pub running_op : Operation → Operation
running_op op = record op { state = running }

observed_iff :
    (op : Operation) (c : Capability) (stamps : Stamps) (call : Call (Dict Value))
    (r : OperationRuntime)
    → ((observed_with op c stamps call r).0.state ≡ verified) ↔ (
        (result : Dict Value) × (call ≡ returned result)
        × Verifies c (verifying_with op result) result)
unfolding verify_operation
observed_iff op c stamps (raised e) r = (λ k. ground (arith, k), λ k. ground (arith, k.1))
observed_iff op c stamps (returned result) r =
    let j =
      judged_iff (verifying_with op result) stamps.second
        (c.verify (verifying_with op result) result) _ refl in
    (
      λ k. (result, refl, j.0 k),
      λ k.
          let same : k.0 ≡ result = ground (arith, k.1) in
          j.1 (subst (λ x. Verifies c (verifying_with op x) x) same k.2),
    )

-- An execution ends verified exactly if the capability returned a result and its verifier then returned
-- evidence for that result, at least one item, each of which has the status "pass".
pub carry_out_iff :
    (op : Operation) (c : Capability) (locators : List String) (stamps : Stamps)
    (r : OperationRuntime)
    → ((carry_out op c locators stamps r).0.state ≡ verified) ↔ (
        (result : Dict Value) × (c.execute (running_op op) locators ≡ returned result)
        × Verifies c (verifying_with op result) result)
unfolding carry_out
carry_out_iff op c locators stamps r =
    observed_iff (running_op op) c stamps (c.execute (running_op op) locators) _
