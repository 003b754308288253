-- ===== src/Tests/Operations.antt =====
-- Runs of `OperationRuntime` (liandanlu_native/runtime.py): a note is opened.
use codex_test.Prelude.{◌≡◌, ◌⊎◌, refl, String, true, none, List, [], ◌∷◌, ok, err, Error, arith}
use codex_test.Prelude.Dict.{Dict, lookup}
use codex_test.Prelude.Json.{Value, text}
use codex_test.Models.{Operation}
use codex_test.Models.States.{read, prepared, verified, cancelled}
use codex_test.Operations.{
  OperationRuntime, Capability, returned, Stamp, Order, Clock, Stamps, execute, carry_out,
  recover_operation,
}
use codex_test.Operations.Admission.{Prepared, Refused, prepare_lem}
use codex_test.Operations.Execution.{Admitted, execute_lem}
use codex_test.Operations.Recovery.{recover_operation_lem}
use codex_test.Operations.Verdict.{carry_out_iff}
use codex_test.Tests.World.{house}
use codex_test.Tests.Leases.{job}
use codex_test.Tests.Rules.{registry, proposal, lower}
use codex_test.Tests.Tasks.{no_events}

abbrev opened : Dict Value
opened = ("opened", text "note") ∷ []

abbrev passed : List (Dict Value)
passed = (("status", text "pass") ∷ []) ∷ []

abbrev pub notes : Capability
notes = record {
  execute = λ op locators. returned opened;
  verify = λ op result. returned passed;
  reconcile = λ op locators. returned (true, opened);
}

abbrev runtime : OperationRuntime
runtime = record {
  world = house;
  events = no_events;
  registry = registry;
  capabilities = ("notes", notes) ∷ [];
  operations = [];
}

abbrev order : Order
order = record {
  proposal = proposal;
  expected_revisions = ("tasks", 0) ∷ [];
  task_lease = none;
  resource_lease = none;
}

abbrev clock : Clock
clock = record { task_lease_at = 3; resource_lease_at = 3; budget_at = 3 }

abbrev stamp : Stamp
stamp = record { event_id = "evt"; at = 3 }

abbrev stamps : Stamps
stamps = record { first = stamp; second = stamp }

abbrev pub open_note : Operation
open_note = record {
  operation_id = "op";
  task_id = "a";
  workspace_id = "home";
  capability = "notes";
  action = "open";
  object_refs = "note" ∷ [];
  arguments = ("title", text "home") ∷ [];
  risk_class = read;
  required_permission = "read";
  idempotency_mode = "RECONCILABLE";
  state = prepared;
  expected_revisions = ("tasks", 0) ∷ [];
  evidence = [];
  result = none;
  error = none;
  task_lease_owner_id = none;
  task_lease_generation = none;
  resource_lease_owner_id = none;
  resource_lease_generation = none;
}

prepare_lem_example :
    Prepared lower "op" job order clock stamp runtime
    ⊎ Refused lower "op" job order clock stamp runtime
prepare_lem_example = prepare_lem lower "op" job order clock stamp runtime

execute_lem_example :
    ((c : Capability) × (ls : List String) × Admitted runtime open_note 3 3 c ls
      × (execute open_note 3 3 stamps runtime ≡ (
        ok (carry_out open_note c ls stamps runtime).0,
        (carry_out open_note c ls stamps runtime).1,
      )))
    ⊎ ((x : Error) × (execute open_note 3 3 stamps runtime ≡ (err x, runtime))
        × ((c : Capability) (ls : List String) → Admitted runtime open_note 3 3 c ls → ⊥))
execute_lem_example = execute_lem runtime open_note 3 3 stamps

carry_out_iff_example :
    (carry_out open_note notes ("/home/a" ∷ []) stamps runtime).0.state ≡ verified
unfolding lookup
carry_out_iff_example =
    (carry_out_iff open_note notes ("/home/a" ∷ []) stamps runtime).1
      (opened, refl, (passed, refl, (λ e. ground (arith, e), (refl, tt))))

recover_operation_lem_example :
    (op : Operation) × ((recover_operation (λ e. "error") open_note stamps runtime).0 ≡ ok op)
    × (op.state ≡ cancelled)
recover_operation_lem_example =
    (recover_operation_lem (λ e. "error") open_note stamps runtime).0 refl
