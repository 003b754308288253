-- ===== src/Capabilities/Registry.antt =====
-- `ActionSpec` and `CapabilityRegistry` (liandanlu_native/capabilities.py). Sets are lists. `lower` is
-- Python's `str.lower`, a table of Unicode. A location in the arguments is its list of steps.
use codex_test.Prelude.{
  ℕ, ◌+◌, String, Bool, true, false, not, ◌&&◌, Option, none, some, List, [], ◌∷◌, ◌++◌, ◌==◌,
  contains, every, is_nil, map, if◌then◌else◌, Result, ok, err, Exec, raise, modify, invalid_action,
  value_error,
}
use codex_test.Prelude.Dict.{Dict}
use codex_test.Prelude.Json.{
  Value, Items, Fields, null, boolean, number, text, array, object, nil, cons, end, field,
}
use codex_test.Models.{ActionProposal, ResourceRequest}
use codex_test.Models.States.{RiskClass}

pub data IdempotencyMode : Type 0 where
  safe_repeat keyed reconcilable non_reconcilable : IdempotencyMode

-- `mode.value`
pub idempotency_value : IdempotencyMode → String
idempotency_value safe_repeat = "SAFE_REPEAT"
idempotency_value keyed = "KEYED"
idempotency_value reconcilable = "RECONCILABLE"
idempotency_value non_reconcilable = "NON_RECONCILABLE"

pub data Step : Type 0 where
  at_key : String → Step
  at_index : ℕ → Step

abbrev pub hit : Bool → List Step → List (List Step)
hit true location = location ∷ []
hit false location = []

-- `_find_forbidden_keys`
unfoldable mutual
  pub find_forbidden_keys : (String → String) → List String → List Step → Value → List (List Step)
  find_forbidden_keys lower forbidden prefix null = []
  find_forbidden_keys lower forbidden prefix (boolean b) = []
  find_forbidden_keys lower forbidden prefix (number n) = []
  find_forbidden_keys lower forbidden prefix (text s) = []
  find_forbidden_keys lower forbidden prefix (array items) =
      find_in_items lower forbidden prefix 0 items
  find_forbidden_keys lower forbidden prefix (object fields) =
      find_in_fields lower forbidden prefix fields

  pub find_in_items : (String → String) → List String → List Step → ℕ → Items → List (List Step)
  find_in_items lower forbidden prefix index nil = []
  find_in_items lower forbidden prefix index (cons child items) =
      find_forbidden_keys lower forbidden (prefix ++ at_index index ∷ []) child
      ++ find_in_items lower forbidden prefix (index + 1) items

  pub find_in_fields : (String → String) → List String → List Step → Fields → List (List Step)
  find_in_fields lower forbidden prefix end = []
  find_in_fields lower forbidden prefix (field key child fields) =
      hit (contains (lower key) forbidden) (prefix ++ at_key key ∷ [])
      ++ (find_forbidden_keys lower forbidden (prefix ++ at_key key ∷ []) child
          ++ find_in_fields lower forbidden prefix fields)

pub record ActionSpec : Type 0 where
  pub capability : String
  pub action : String
  pub risk_class : RiskClass
  pub required_permission : String
  pub allowed_arguments : List String
  pub required_arguments : List String
  pub revision_domains : List String
  pub resource_request : ResourceRequest
  pub idempotency_mode : IdempotencyMode
  pub forbidden_arguments : List String

-- The default of `forbidden_arguments`.
abbrev pub locator_arguments : List String
locator_arguments =
    "path" ∷ "file_path" ∷ "absolute_path" ∷ "locator" ∷ "filesystem_path" ∷ "source_path"
    ∷ "target_path" ∷ "shell_command" ∷ []

abbrev pub fields_of : Dict Value → Fields
fields_of [] = end
fields_of ((k, v) ∷ d) = field k v (fields_of d)

abbrev pub keys_of : Dict Value → List String
keys_of = map (λ e. e.0)

-- `not (set(xs) - set(ys))`
abbrev pub is_subset : List String → List String → Bool
is_subset xs ys = every (λ x. contains x ys) xs

unfoldable pub validate : (String → String) → ActionSpec → ActionProposal → Result (Unit {0})
validate lower spec p =
    if not (p.capability == spec.capability && p.action == spec.action)
    then err invalid_action
    else if not (is_subset (keys_of p.arguments) spec.allowed_arguments)
    then err invalid_action
    else if not (is_subset spec.required_arguments (keys_of p.arguments))
    then err invalid_action
    else if is_nil
        (find_forbidden_keys lower spec.forbidden_arguments [] (object (fields_of p.arguments)))
    then ok tt
    else err invalid_action

abbrev pub Actions : Type 0
Actions = List ((String × String) × ActionSpec)

-- `self.actions.get((capability, action))`
unfoldable pub find_action : String → String → Actions → Option ActionSpec
find_action capability action [] = none
find_action capability action (((c, a), spec) ∷ actions) =
    if c == capability && a == action then some spec else find_action capability action actions

abbrev register_new : Option ActionSpec → ActionSpec → Exec Actions (Unit {0})
register_new (some old) spec = raise value_error
register_new none spec = modify λ actions. actions ++ ((spec.capability, spec.action), spec) ∷ []

unfoldable pub register : ActionSpec → Exec Actions (Unit {0})
unfolding find_action
register spec actions = register_new (find_action spec.capability spec.action actions) spec actions

abbrev pub validated : ActionSpec → Result (Unit {0}) → Result ActionSpec
validated spec (ok u) = ok spec
validated spec (err x) = err x

abbrev pub resolve_with : (String → String) → ActionProposal → Option ActionSpec → Result ActionSpec
resolve_with lower p none = err invalid_action
resolve_with lower p (some spec) = validated spec (validate lower spec p)

unfoldable pub resolve : (String → String) → Actions → ActionProposal → Result ActionSpec
unfolding find_action
resolve lower actions p = resolve_with lower p (find_action p.capability p.action actions)
