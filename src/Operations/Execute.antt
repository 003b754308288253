-- ===== src/Operations/Execute.antt =====
-- `OperationRuntime._verify`, `execute` and `recover_operation` (liandanlu_native/runtime.py). Each event
-- has a stamp of its own.
use codex_test.Prelude.{
  ℕ, String, Bool, false, not, ◌&&◌, Option, none, some, List, [], ◌∷◌, ◌++◌, ◌==◌, every, is_nil,
  if◌then◌else◌, Result, ok, err, Exec, key_error, type_error, lease_lost,
}
use codex_test.Prelude.Dict.{Dict, lookup}
use codex_test.Prelude.Json.{Value, Items, nil, cons, text, array, object}
use codex_test.Models.{Operation}
use codex_test.Models.States.{
  OperationState, running, observed, verifying, verified, failed, unknown,
}
use codex_test.Storage.{Store}
use codex_test.World.{WorldModel, assert_revisions, resolve_locator}
use codex_test.Capabilities.{fields_of}
use codex_test.Operations.Runtime.{
  OperationRuntime, Capability, Call, returned, raised, Stamp, save, record_operation,
}
use codex_test.Operations.Prepare.{task_lease_holds, resource_lease_holds}

-- The stamps of the events that one call may record, in their order.
pub record Stamps : Type 0 where
  pub first : Stamp
  pub second : Stamp

abbrev pub is_text : String → Option Value → Bool
is_text expected none = false
is_text expected (some (text s)) = s == expected
is_text expected (some _) = false

-- `item.get("status") == "pass"`
abbrev pub is_pass : Dict Value → Bool
is_pass item = is_text "pass" (lookup "status" item)

abbrev pub value_items : List (Dict Value) → Items
value_items [] = nil
value_items (d ∷ ds) = cons (object (fields_of d)) (value_items ds)

-- The state that the evidence of a verification gives.
unfoldable pub verdict : List (Dict Value) → OperationState
verdict evidence = if not (is_nil evidence) && every is_pass evidence then verified else failed

abbrev verdict_event : List (Dict Value) → String
verdict_event evidence =
    if not (is_nil evidence) && every is_pass evidence
    then "operation.verified"
    else "operation.verification_failed"

abbrev pub judged :
    Operation → Stamp → Call (List (Dict Value)) → OperationRuntime → Operation × OperationRuntime
judged op stamp (raised e) r =
    let after = record op { error = some e } in
    (
      after,
      record_operation "operation.verify_error" "verifier" (("error", text e) ∷ []) after stamp r,
    )
judged op stamp (returned evidence) r =
    let after = record op { evidence = op.evidence ++ evidence; state = verdict evidence } in
    (
      after,
      record_operation (verdict_event evidence) "verifier"
          (("evidence", array (value_items evidence)) ∷ []) after stamp r,
    )

abbrev pub verify_result :
    Option (Dict Value)
    → Operation
    → Capability
    → Stamp
    → OperationRuntime
    → Operation × OperationRuntime
verify_result none op capability stamp r =
    let after = record op { state = unknown } in
    (after, record_operation "operation.verify_missing_result" "verifier" [] after stamp r)
verify_result (some result) op capability stamp r =
    let mid = record op { state = verifying } in
    judged mid stamp (capability.verify mid result) (save mid r)

-- `_verify`
unfoldable pub verify_operation :
    Operation → Capability → Stamp → OperationRuntime → Operation × OperationRuntime
verify_operation op capability stamp r = verify_result op.result op capability stamp r

-- `owner is not None and not validate(…, int(generation))`, as a check
abbrev pub check_lease : Option String → Option ℕ → (String → ℕ → Bool) → Result (Unit {0})
check_lease none generation holds = ok tt
check_lease (some owner) none holds = err type_error
check_lease (some owner) (some generation) holds =
    if holds owner generation then ok tt else err lease_lost

abbrev pub check_task : Option Store → Operation → ℕ → Result (Unit {0})
check_task none op at = ok tt
check_task (some s) op at =
    check_lease op.task_lease_owner_id op.task_lease_generation
      (λ owner generation. task_lease_holds (some s) op.task_id owner generation at)

abbrev pub check_resource : Option Store → Operation → ℕ → Result (Unit {0})
check_resource none op at = ok tt
check_resource (some s) op at =
    check_lease op.resource_lease_owner_id op.resource_lease_generation
      (λ owner generation. resource_lease_holds (some s) op.task_id owner generation at)

abbrev pub locators_with : Result String → Result (List String) → Result (List String)
locators_with (err x) rest = err x
locators_with (ok l) (err x) = err x
locators_with (ok l) (ok ls) = ok (l ∷ ls)

-- `tuple(self.world.resolve_locator(ref, …) for ref in op.object_refs)`
unfoldable pub resolve_locators : WorldModel → String → String → List String → Result (List String)
resolve_locators w permission workspace_id [] = ok []
resolve_locators w permission workspace_id (ref ∷ refs) =
    locators_with (resolve_locator w ref permission (some workspace_id))
      (resolve_locators w permission workspace_id refs)

abbrev pub or_missing : Option Capability → Result Capability
or_missing none = err key_error
or_missing (some c) = ok c

abbrev pub pass_on {ℓ} : {A : Type ℓ} → Result (Unit {0}) → Result A → Result A
pass_on (ok u) next = next
pass_on (err x) next = err x

abbrev pub pair_of :
    Result Capability → Result (Unit {0}) → Result (List String) → Result (Capability × List String)
pair_of (err x) revisions locators = err x
pair_of (ok c) (err x) locators = err x
pair_of (ok c) (ok u) (err x) = err x
pair_of (ok c) (ok u) (ok ls) = ok (c, ls)

-- What `execute` checks and looks up before the side effect, in its order.
unfoldable pub admit : OperationRuntime → Operation → ℕ → ℕ → Result (Capability × List String)
admit r op task_at resource_at = pass_on (check_task r.world.persistence op task_at) (
    pass_on (check_resource r.world.persistence op resource_at) (
      pair_of (or_missing (lookup op.capability r.capabilities))
        (assert_revisions r.world op.expected_revisions (some op.workspace_id))
        (resolve_locators r.world op.required_permission op.workspace_id op.object_refs)))

abbrev pub observed_with :
    Operation
    → Capability
    → Stamps
    → Call (Dict Value)
    → OperationRuntime
    → Operation × OperationRuntime
observed_with op capability stamps (raised e) r =
    let after = record op { state = unknown; error = some e } in
    (
      after,
      record_operation "operation.unknown" "engine" (("error", text e) ∷ []) after stamps.second r,
    )
observed_with op capability stamps (returned result) r =
    let after = record op { result = some result; state = observed } in
    verify_operation after capability stamps.second (save after r)

-- The side effect and what follows it.
unfoldable pub carry_out :
    Operation → Capability → List String → Stamps → OperationRuntime → Operation × OperationRuntime
carry_out op capability locators stamps r =
    let mid = record op { state = running } in
    observed_with mid capability stamps (capability.execute mid locators)
      (record_operation "operation.started" "engine" [] mid stamps.first r)

abbrev pub execute_with :
    Result (Capability × List String) → Operation → Stamps → Exec OperationRuntime Operation
execute_with (err x) op stamps r = (err x, r)
execute_with (ok (capability, locators)) op stamps r =
    let done = carry_out op capability locators stamps r in (ok done.0, done.1)

unfoldable pub execute : Operation → ℕ → ℕ → Stamps → Exec OperationRuntime Operation
execute op task_at resource_at stamps r = execute_with (admit r op task_at resource_at) op stamps r
