-- ===== src/Capabilities/Arguments.antt =====
-- What `CapabilityRegistry.resolve` (liandanlu_native/capabilities.py) lets through.
use codex_test.Prelude.{
  ℕ, ◌+◌, ◌≡◌, ◌↔◌, refl, ap, ap₂, ◌∙◌, subst, String, Bool, true, false, some, List, [], ◌∷◌, ◌++◌,
  eq_iff, contains, is_nil_iff, inl, inr, arith, Option-cases, ok, Result-cases,
}
use codex_test.Prelude.Json.{
  Value, Items, Fields, null, boolean, number, text, array, object, nil, cons, end, field,
}
use codex_test.Models.{ActionProposal}
use codex_test.Capabilities.Registry.{
  Step, at_key, at_index, hit, find_forbidden_keys, find_in_items, find_in_fields, ActionSpec,
  fields_of, keys_of, is_subset, validate, Actions, find_action, resolve,
}

-- The key stands somewhere in the value, however deep.
mutual
  pub data Within (key : String) : Value → Type 0 where
    in_array : {items : Items} → WithinItems key items → Within key (array items)
    in_object : {fields : Fields} → WithinFields key fields → Within key (object fields)

  pub data WithinItems (key : String) : Items → Type 0 where
    in_first : {v : Value} {items : Items} → Within key v → WithinItems key (cons v items)
    in_rest : {v : Value} {items : Items} → WithinItems key items → WithinItems key (cons v items)

  pub data WithinFields (key : String) : Fields → Type 0 where
    is_key : {v : Value} {fields : Fields} → WithinFields key (field key v fields)
    in_child :
        {k : String} {v : Value} {fields : Fields}
        → Within key v
        → WithinFields key (field k v fields)
    in_others :
        {k : String} {v : Value} {fields : Fields}
        → WithinFields key fields
        → WithinFields key (field k v fields)

append-nil {ℓ} : {A : Type ℓ} (xs ys : List A) → xs ++ ys ≡ [] → (xs ≡ []) × (ys ≡ [])
append-nil [] ys h = (refl, h)
append-nil (x ∷ xs) ys h = ground (arith, h)

hit-nil : (b : Bool) (location : List Step) → hit b location ≡ [] → b ≡ false
hit-nil true location h = ground (arith, h)
hit-nil false location h = refl

module _ (lower : String → String) (forbidden : List String) where
  mutual
    unfolding find_forbidden_keys find_in_items find_in_fields

    none_found :
        (v : Value) (at : List Step)
        → find_forbidden_keys lower forbidden at v ≡ []
        → (key : String) → Within key v
        → contains (lower key) forbidden ≡ false
    none_found _ at h key (in_array {items} w) = none_found_in_items items at 0 h key w
    none_found _ at h key (in_object {fields} w) = none_found_in_fields fields at h key w

    none_found_in_items :
        (items : Items) (at : List Step) (n : ℕ)
        → find_in_items lower forbidden at n items ≡ []
        → (key : String) → WithinItems key items
        → contains (lower key) forbidden ≡ false
    none_found_in_items _ at n h key (in_first {v} {items} w) =
        none_found v (at ++ at_index n ∷ []) (append-nil _ _ h).0 key w
    none_found_in_items _ at n h key (in_rest {v} {items} w) =
        none_found_in_items items at (n + 1) (append-nil _ _ h).1 key w

    none_found_in_fields :
        (fields : Fields) (at : List Step)
        → find_in_fields lower forbidden at fields ≡ []
        → (key : String) → WithinFields key fields
        → contains (lower key) forbidden ≡ false
    none_found_in_fields _ at h key is_key = hit-nil _ _ (append-nil _ _ h).0
    none_found_in_fields _ at h key (in_child {k} {v} {fields} w) =
        none_found v (at ++ at_key k ∷ []) (append-nil _ _ (append-nil _ _ h).1).0 key w
    none_found_in_fields _ at h key (in_others {k} {v} {fields} w) =
        none_found_in_fields fields at (append-nil _ _ (append-nil _ _ h).1).1 key w

  hit-none : (b : Bool) (location : List Step) → b ≡ false → hit b location ≡ []
  hit-none b location h = rw h refl

  mutual
    unfolding find_forbidden_keys find_in_items find_in_fields

    finds_none :
        (v : Value) (at : List Step)
        → ((key : String) → Within key v → contains (lower key) forbidden ≡ false)
        → find_forbidden_keys lower forbidden at v ≡ []
    finds_none null at h = refl
    finds_none (boolean b) at h = refl
    finds_none (number n) at h = refl
    finds_none (text s) at h = refl
    finds_none (array items) at h = finds_none_in_items items at 0 (λ key w. h key (in_array w))
    finds_none (object fields) at h = finds_none_in_fields fields at (λ key w. h key (in_object w))

    finds_none_in_items :
        (items : Items) (at : List Step) (n : ℕ)
        → ((key : String) → WithinItems key items → contains (lower key) forbidden ≡ false)
        → find_in_items lower forbidden at n items ≡ []
    finds_none_in_items nil at n h = refl
    finds_none_in_items (cons v items) at n h =
        ap₂ ◌++◌ (finds_none v (at ++ at_index n ∷ []) (λ key w. h key (in_first w)))
          (finds_none_in_items items at (n + 1) (λ key w. h key (in_rest w)))

    finds_none_in_fields :
        (fields : Fields) (at : List Step)
        → ((key : String) → WithinFields key fields → contains (lower key) forbidden ≡ false)
        → find_in_fields lower forbidden at fields ≡ []
    finds_none_in_fields end at h = refl
    finds_none_in_fields (field k v fields) at h =
        ap₂ ◌++◌ (hit-none (contains (lower k) forbidden) (at ++ at_key k ∷ []) (h k is_key)) (
          ap₂ ◌++◌ (finds_none v (at ++ at_key k ∷ []) (λ key w. h key (in_child w)))
            (finds_none_in_fields fields at (λ key w. h key (in_others w))))

-- What a proposal has to meet for a spec.
pub record Admissible (lower : String → String) (spec : ActionSpec) (p : ActionProposal)
    : Type 0 where
  pub same_capability : p.capability ≡ spec.capability
  pub same_action : p.action ≡ spec.action
  pub allowed : is_subset (keys_of p.arguments) spec.allowed_arguments ≡ true
  pub required : is_subset spec.required_arguments (keys_of p.arguments) ≡ true
  pub no_locator :
      (key : String)
      → WithinFields key (fields_of p.arguments)
      → contains (lower key) spec.forbidden_arguments ≡ false

validate_iff :
    (lower : String → String) (spec : ActionSpec) (p : ActionProposal)
    → (validate lower spec p ≡ ok tt) ↔ Admissible lower spec p
unfolding validate find_forbidden_keys
validate_iff lower spec p =
    let found = find_in_fields lower spec.forbidden_arguments [] (fields_of p.arguments) in
    let names = eq_iff p.capability spec.capability in
    let actions = eq_iff p.action spec.action in
    (
      λ h. record {
        same_capability = ground (arith, h, names);
        same_action = ground (arith, h, actions);
        allowed = ground (arith, h);
        required = ground (arith, h);
        no_locator =
            none_found_in_fields lower spec.forbidden_arguments (fields_of p.arguments) []
              (ground (arith, h, is_nil_iff found));
      },
      λ a. ground (
        arith,
        names,
        actions,
        a.same_capability,
        a.same_action,
        a.allowed,
        a.required,
        is_nil_iff found,
        finds_none_in_fields lower spec.forbidden_arguments (fields_of p.arguments) [] a.no_locator,
      ),
    )

-- `resolve` gives out a spec exactly if it is the one registered for the proposal's capability and action
-- and the proposal's arguments are all allowed, hold all the required ones, and have nowhere, however
-- deep, a key that in lower case is forbidden; whatever else is proposed raises.
pub resolve_iff :
    (lower : String → String) (actions : Actions) (p : ActionProposal) (spec : ActionSpec)
    → (resolve lower actions p ≡ ok spec)
      ↔ ((find_action p.capability p.action actions ≡ some spec) × Admissible lower spec p)
unfolding resolve
resolve_iff lower actions p spec = elim (Option-cases (find_action p.capability p.action actions)) [
  | inl unknown ↦ (λ h. ground (arith, unknown, h), λ h. ground (arith, unknown, h.0))
  | inr (found, e) ↦ elim (Result-cases (validate lower found p)) [
    | inl (x, r) ↦ (
      λ h. ground (arith, e, r, h),
      λ h. ground (arith, e, r, h.0, (validate_iff lower spec p).1 h.1),
    )
    | inr (u, r) ↦ (
      λ h.
          let same : found ≡ spec = ground (arith, e, r, h) in
          (
            e ∙ ap some same,
            subst (λ q. Admissible lower q p) same ((validate_iff lower found p).0 r),
          ),
      λ h. ground (arith, e, r, h.0),
    )
  ]
]
