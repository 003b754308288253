-- ===== src/Tests/Rules.antt =====
-- Runs of liandanlu_native/policy.py and liandanlu_native/capabilities.py.
use codex_test.Prelude.{◌≡◌, refl, String, false, [], ◌∷◌, ok, contains, decide}
use codex_test.Prelude.Dict.{lookup}
use codex_test.Prelude.Json.{text, field, end}
use codex_test.Models.{ActionProposal}
use codex_test.Models.States.{read, RiskClass-discrete}
use codex_test.Policy.{default_policy, evaluate, allow, evaluate_iff}
use codex_test.Capabilities.{
  ActionSpec, Actions, reconcilable, locator_arguments, resolve, find_action,
}
use codex_test.Capabilities.Arguments.{resolve_iff, WithinFields, is_key, in_child, in_others}

evaluate_iff_example :
    evaluate (("home", default_policy ("notes" ∷ [])) ∷ []) "home" "notes" "open" read ≡ allow
unfolding lookup RiskClass-discrete decide
evaluate_iff_example =
    (evaluate_iff (("home", default_policy ("notes" ∷ [])) ∷ []) "home" "notes" "open" read).0.1 (
      default_policy ("notes" ∷ []),
      record { known = refl; not_denied = refl; listed = refl },
      refl,
      refl,
    )

abbrev pub spec : ActionSpec
spec = record {
  capability = "notes";
  action = "open";
  risk_class = read;
  required_permission = "read";
  allowed_arguments = "title" ∷ [];
  required_arguments = "title" ∷ [];
  revision_domains = [];
  resource_request = record { cpu_units = 0; memory_mb = 0; gpu_units = 0; exclusive_labels = [] };
  idempotency_mode = reconcilable;
  forbidden_arguments = locator_arguments;
}

abbrev pub proposal : ActionProposal
proposal = record {
  proposal_id = "p";
  capability = "notes";
  action = "open";
  object_refs = "note" ∷ [];
  arguments = ("title", text "home") ∷ [];
}

abbrev pub registry : Actions
registry = (("notes", "open"), spec) ∷ []

-- The texts here are in lower case already.
abbrev pub lower : String → String
lower s = s

only_title :
    (key : String)
    → WithinFields key (field "title" (text "home") end)
    → contains (lower key) locator_arguments ≡ false
only_title _ is_key = refl
only_title key (in_child w) = elim w [ ]
only_title key (in_others w) = elim w [ ]

resolve_iff_example : resolve lower registry proposal ≡ ok spec
unfolding find_action
resolve_iff_example = (resolve_iff lower registry proposal spec).1 (
  refl,
  record {
    same_capability = refl;
    same_action = refl;
    allowed = refl;
    required = refl;
    no_locator = only_title;
  },
)
