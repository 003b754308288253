-- ===== src/Operations/Recover.antt =====
-- `OperationRuntime.recover_operation` (liandanlu_native/runtime.py). `repr` gives the text of an
-- exception that the look-up of a locator raises.
use codex_test.Prelude.{
  String, Bool, some, List, [], ◌∷◌, is_some, if◌then◌else◌, Result, ok, err, Exec, Error,
}
use codex_test.Prelude.Dict.{Dict, lookup}
use codex_test.Prelude.Json.{Value, text, boolean}
use codex_test.Models.{Operation}
use codex_test.Models.States.{
  OperationState, prepared, running, observed, verifying, verified, failed, unknown, reconciling,
  cancelled,
}
use codex_test.Operations.Runtime.{
  OperationRuntime, Capability, Call, returned, raised, Stamp, record_operation,
}
use codex_test.Operations.Execute.{Stamps, verify_operation, resolve_locators, or_missing}

abbrev pub reconcile_error :
    Operation → String → Stamp → OperationRuntime → Operation × OperationRuntime
reconcile_error op e stamp r =
    let after = record op { state = unknown; error = some e } in
    (
      after,
      record_operation "operation.reconcile_error" "recovery" (("error", text e) ∷ []) after stamp
          r,
    )

abbrev pub reconciled_with :
    Operation → Stamp → Call (Bool × Dict Value) → OperationRuntime → Operation × OperationRuntime
reconciled_with op stamp (raised e) r = reconcile_error op e stamp r
reconciled_with op stamp (returned (verified_now, result)) r =
    let after = record op {
      result = some result;
      state = if verified_now then verified else failed;
    } in
    (
      after,
      record_operation "operation.reconciled" "recovery" (("verified", boolean verified_now) ∷ [])
          after stamp r,
    )

abbrev pub reconcile_at :
    (Error → String)
    → Operation
    → Capability
    → Stamp
    → Result (List String)
    → OperationRuntime
    → Operation × OperationRuntime
reconcile_at repr op capability stamp (err x) r = reconcile_error op (repr x) stamp r
reconcile_at repr op capability stamp (ok locators) r =
    reconciled_with op stamp (capability.reconcile op locators) r

unfoldable pub reconcile_operation :
    (Error → String)
    → Operation
    → Capability
    → Stamps
    → OperationRuntime
    → Operation × OperationRuntime
reconcile_operation repr op capability stamps r =
    let mid = record op { state = reconciling } in
    let started = record_operation "operation.reconciling" "recovery" [] mid stamps.first r in
    reconcile_at repr mid capability stamps.second
      (resolve_locators started.world op.required_permission op.workspace_id op.object_refs) started

-- Behind the look-up of the capability: what is done in each state.
abbrev pub recover_state :
    OperationState
    → (Error → String)
    → Operation
    → Capability
    → Stamps
    → OperationRuntime
    → Operation × OperationRuntime
recover_state observed repr op capability stamps r =
    if is_some op.result then verify_operation op capability stamps.first r else (op, r)
recover_state verifying repr op capability stamps r =
    if is_some op.result then verify_operation op capability stamps.first r else (op, r)
recover_state running repr op capability stamps r = reconcile_operation repr op capability stamps r
recover_state unknown repr op capability stamps r = reconcile_operation repr op capability stamps r
recover_state reconciling repr op capability stamps r =
    reconcile_operation repr op capability stamps r
recover_state _ repr op capability stamps r = (op, r)

abbrev pub recover_with :
    Result Capability → (Error → String) → Operation → Stamps → Exec OperationRuntime Operation
recover_with (err x) repr op stamps r = (err x, r)
recover_with (ok capability) repr op stamps r =
    let done = recover_state op.state repr op capability stamps r in (ok done.0, done.1)

abbrev pub abandoned : Operation → Stamp → Exec OperationRuntime Operation
abandoned op stamp r =
    let after = record op { state = cancelled } in
    (
      ok after,
      record_operation "operation.abandoned_prepared" "recovery"
          (("reason", text "no external execution was recorded before restart") ∷ []) after stamp r,
    )

abbrev pub recover_from :
    OperationState → (Error → String) → Operation → Stamps → Exec OperationRuntime Operation
recover_from prepared repr op stamps r = abandoned op stamps.first r
recover_from _ repr op stamps r =
    recover_with (or_missing (lookup op.capability r.capabilities)) repr op stamps r

unfoldable pub recover_operation :
    (Error → String) → Operation → Stamps → Exec OperationRuntime Operation
recover_operation repr op stamps r = recover_from op.state repr op stamps r
