-- ===== src/Operations/Recovery.antt =====
-- When `recover_operation` of `OperationRuntime` (liandanlu_native/runtime.py) leaves an operation verified.
use codex_test.Prelude.{
  ◌≡◌, refl, ap, ◌∙◌, String, Bool, true, false, Option, none, some, List, arith, is_some,
  if◌then◌else◌, Result, ok, err, Error,
}
use codex_test.Prelude.Dict.{Dict, lookup}
use codex_test.Prelude.Json.{Value}
use codex_test.Models.{Operation}
use codex_test.Models.States.{
  OperationState, proposed, authorized, prepared, running, observed, verifying, verified, failed,
  unknown, reconciling, blocked, cancelled,
}
use codex_test.Operations.Runtime.{OperationRuntime, Capability, Call, returned, raised, Stamp}
use codex_test.Operations.Execute.{Stamps, verify_result, verify_operation, or_missing}
use codex_test.Operations.Recover.{
  reconciled_with, reconcile_at, reconcile_operation, recover_state, recover_with, recover_from,
  abandoned, recover_operation,
}
use codex_test.Operations.Verdict.{Verifies, judged_iff}

abbrev pub verifying_op : Operation → Operation
verifying_op op = record op { state = verifying }

abbrev pub reconciling_op : Operation → Operation
reconciling_op op = record op { state = reconciling }

-- Who has said that the operation is verified.
pub data VerifiedBy (op : Operation) (c : Capability) : Type 0 where
  already : op.state ≡ verified → VerifiedBy op c
  by_evidence :
      (result : Dict Value)
      → op.result ≡ some result
      → Verifies c (verifying_op op) result
      → VerifiedBy op c
  by_reconciliation :
      (locators : List String) (result : Dict Value)
      → c.reconcile (reconciling_op op) locators ≡ returned (true, result)
      → VerifiedBy op c

verified_result :
    (o : Option (Dict Value)) (op : Operation) (c : Capability) (stamp : Stamp)
    (r : OperationRuntime)
    → op.result ≡ o
    → (verify_result o op c stamp r).0.state ≡ verified
    → VerifiedBy op c
verified_result none op c stamp r e h = ground (arith, h)
verified_result (some result) op c stamp r e h =
    by_evidence result e
      ((judged_iff (verifying_op op) stamp (c.verify (verifying_op op) result) _ refl).0 h)

verified_if :
    (b : Bool) (op : Operation) (c : Capability) (stamp : Stamp) (r : OperationRuntime)
    → (if b then verify_operation op c stamp r else (op, r)).0.state ≡ verified
    → VerifiedBy op c
unfolding verify_operation
verified_if true op c stamp r h = verified_result op.result op c stamp r refl h
verified_if false op c stamp r h = already h

reconciled_true :
    (op : Operation) (stamp : Stamp) (call : Call (Bool × Dict Value)) (r : OperationRuntime)
    → (reconciled_with op stamp call r).0.state ≡ verified
    → (result : Dict Value) × (call ≡ returned (true, result))
reconciled_true op stamp (raised e) r h = ground (arith, h)
reconciled_true op stamp (returned (true, result)) r h = (result, refl)
reconciled_true op stamp (returned (false, result)) r h = ground (arith, h)

reconciled_at :
    (repr : Error → String) (op : Operation) (c : Capability) (stamp : Stamp)
    (o : Result (List String)) (r : OperationRuntime)
    → (reconcile_at repr (reconciling_op op) c stamp o r).0.state ≡ verified
    → VerifiedBy op c
reconciled_at repr op c stamp (err x) r h = ground (arith, h)
reconciled_at repr op c stamp (ok locators) r h =
    let k =
      reconciled_true (reconciling_op op) stamp (c.reconcile (reconciling_op op) locators) r h in
    by_reconciliation locators k.0 k.1

recovered :
    (s : OperationState) (repr : Error → String) (op : Operation) (c : Capability) (stamps : Stamps)
    (r : OperationRuntime)
    → (recover_state s repr op c stamps r).0.state ≡ verified
    → VerifiedBy op c
unfolding reconcile_operation
recovered observed repr op c stamps r h = verified_if (is_some op.result) op c stamps.first r h
recovered verifying repr op c stamps r h = verified_if (is_some op.result) op c stamps.first r h
recovered running repr op c stamps r h = reconciled_at repr op c stamps.second _ _ h
recovered unknown repr op c stamps r h = reconciled_at repr op c stamps.second _ _ h
recovered reconciling repr op c stamps r h = reconciled_at repr op c stamps.second _ _ h
recovered proposed repr op c stamps r h = already h
recovered authorized repr op c stamps r h = already h
recovered prepared repr op c stamps r h = already h
recovered verified repr op c stamps r h = already h
recovered failed repr op c stamps r h = already h
recovered blocked repr op c stamps r h = already h
recovered cancelled repr op c stamps r h = already h

-- A capability that is known has the last word, or the operation was verified already.
abbrev pub IsVouched : Operation → OperationRuntime → Type 0
IsVouched op r = (c : Capability) × (lookup op.capability r.capabilities ≡ some c) × VerifiedBy op c

recovered_with :
    (o : Option Capability) (repr : Error → String) (op op' : Operation) (stamps : Stamps)
    (r : OperationRuntime)
    → lookup op.capability r.capabilities ≡ o
    → (recover_with (or_missing o) repr op stamps r).0 ≡ ok op'
    → op'.state ≡ verified
    → IsVouched op r
recovered_with none repr op op' stamps r e h v = ground (arith, h)
recovered_with (some c) repr op op' stamps r e h v =
    let same : (recover_state op.state repr op c stamps r).0 ≡ op' = ground (arith, h) in
    (c, e, recovered op.state repr op c stamps r (ap (λ (x : Operation). x.state) same ∙ v))

abandoned_state :
    (op op' : Operation) (stamp : Stamp) (r : OperationRuntime)
    → (abandoned op stamp r).0 ≡ ok op'
    → op'.state ≡ cancelled
abandoned_state op op' stamp r h = ground (arith, h)

recovered_from :
    (s : OperationState) (repr : Error → String) (op op' : Operation) (stamps : Stamps)
    (r : OperationRuntime)
    → (recover_from s repr op stamps r).0 ≡ ok op'
    → op'.state ≡ verified
    → IsVouched op r
recovered_from prepared repr op op' stamps r h v =
    ground (arith, abandoned_state op op' stamps.first r h, v)
recovered_from observed repr op op' stamps r h v = recovered_with _ repr op op' stamps r refl h v
recovered_from verifying repr op op' stamps r h v = recovered_with _ repr op op' stamps r refl h v
recovered_from running repr op op' stamps r h v = recovered_with _ repr op op' stamps r refl h v
recovered_from unknown repr op op' stamps r h v = recovered_with _ repr op op' stamps r refl h v
recovered_from reconciling repr op op' stamps r h v = recovered_with _ repr op op' stamps r refl h v
recovered_from proposed repr op op' stamps r h v = recovered_with _ repr op op' stamps r refl h v
recovered_from authorized repr op op' stamps r h v = recovered_with _ repr op op' stamps r refl h v
recovered_from verified repr op op' stamps r h v = recovered_with _ repr op op' stamps r refl h v
recovered_from failed repr op op' stamps r h v = recovered_with _ repr op op' stamps r refl h v
recovered_from blocked repr op op' stamps r h v = recovered_with _ repr op op' stamps r refl h v
recovered_from cancelled repr op op' stamps r h v = recovered_with _ repr op op' stamps r refl h v

-- An operation that was only prepared is cancelled, whatever capabilities are known. Any other comes out of
-- a recovery verified only if it was so before, if the verifier of its capability returned evidence for
-- its result, at least one item and all of it passed, or if its capability's `reconcile` said so.
pub recover_operation_lem :
    (repr : Error → String) (op : Operation) (stamps : Stamps) (r : OperationRuntime)
    → (op.state ≡ prepared
        → (op' : Operation) × ((recover_operation repr op stamps r).0 ≡ ok op')
          × (op'.state ≡ cancelled))
      × ((op' : Operation)
          → (recover_operation repr op stamps r).0 ≡ ok op'
          → op'.state ≡ verified
          → IsVouched op r)
unfolding recover_operation
recover_operation_lem repr op stamps r = (
  λ e. (record op { state = cancelled }, ap (λ s. (recover_from s repr op stamps r).0) e, refl),
  λ op' h v. recovered_from op.state repr op op' stamps r h v,
)

recover_with-known :
    (repr : Error → String) (op : Operation) (stamps : Stamps) (r : OperationRuntime)
    (o : Option Capability) (c : Capability)
    → o ≡ some c
    → (op' : Operation) × ((recover_with (or_missing o) repr op stamps r).0 ≡ ok op')
recover_with-known repr op stamps r none c h = cc
recover_with-known repr op stamps r (some d) c h = (_, refl)

recover_from-known :
    (s : OperationState) (repr : Error → String) (op : Operation) (stamps : Stamps)
    (r : OperationRuntime) (c : Capability)
    → lookup op.capability r.capabilities ≡ some c
    → (op' : Operation) × ((recover_from s repr op stamps r).0 ≡ ok op')
recover_from-known prepared repr op stamps r c e = (_, refl)
recover_from-known observed repr op stamps r c e = recover_with-known repr op stamps r _ c e
recover_from-known verifying repr op stamps r c e = recover_with-known repr op stamps r _ c e
recover_from-known running repr op stamps r c e = recover_with-known repr op stamps r _ c e
recover_from-known unknown repr op stamps r c e = recover_with-known repr op stamps r _ c e
recover_from-known reconciling repr op stamps r c e = recover_with-known repr op stamps r _ c e
recover_from-known proposed repr op stamps r c e = recover_with-known repr op stamps r _ c e
recover_from-known authorized repr op stamps r c e = recover_with-known repr op stamps r _ c e
recover_from-known verified repr op stamps r c e = recover_with-known repr op stamps r _ c e
recover_from-known failed repr op stamps r c e = recover_with-known repr op stamps r _ c e
recover_from-known blocked repr op stamps r c e = recover_with-known repr op stamps r _ c e
recover_from-known cancelled repr op stamps r c e = recover_with-known repr op stamps r _ c e

-- The capability of the operation is known, or the operation was only prepared and needs none.
pub data IsReady (capabilities : Dict Capability) (op : Operation) : Type 0 where
  only_prepared : op.state ≡ prepared → IsReady capabilities op
  has_capability :
      (c : Capability) → lookup op.capability capabilities ≡ some c → IsReady capabilities op

-- The recovery of such an operation returns.
pub recover_operation-ready :
    (repr : Error → String) (op : Operation) (stamps : Stamps) (r : OperationRuntime)
    → IsReady r.capabilities op
    → (op' : Operation) × ((recover_operation repr op stamps r).0 ≡ ok op')
recover_operation-ready repr op stamps r (only_prepared e) =
    let (op', h, s) = (recover_operation_lem repr op stamps r).0 e in (op', h)
recover_operation-ready repr op stamps r (has_capability c e) =
    unfold recover_operation in recover_from-known op.state repr op stamps r c e
