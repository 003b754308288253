-- ===== src/Bridge/Responses.antt =====
-- Which messages `_parse_response` (liandanlu_native/desktop_bridge.py) takes for a response, and what it
-- returns of them.
use codex_test.Prelude.{
  ◌≡◌, refl, sym, ap, subst, ◌∙◌, String, true, false, Option, none, some, List, inl, inr, ◌⊎◌,
  arith, eq_iff, contains, Bool-cases, Result-cases, Result, ok, err, Error, [], ◌∷◌, ◌↔◌,
}
use codex_test.Prelude.Dict.{Dict, lookup}
use codex_test.Prelude.Int.{ℤ}
use codex_test.Prelude.Json.{
  Value, null, boolean, number, text, array, object, Items, nil, cons, Fields, end, entries, truthy,
}
use codex_test.Bridge.Session.{
  BridgeSession, BridgeResponse, is_text, is_number, member, allowed_statuses, result_of,
  evidence_of, error_of, or_empty, int_of, answered, parse_response, ◌>>=◌, and_object, objects_of,
}

-- A member that is missing or counts as false.
abbrev pub IsAbsent : Option Value → Type 0
IsAbsent none = Unit
IsAbsent (some v) = truthy v ≡ false

-- A list of objects as a JSON array.
abbrev pub items_of : List Fields → Items
items_of [] = nil
items_of (f ∷ fs) = cons (object f) (items_of fs)

-- The rest of a response is what the message says of it. A member that is absent gives an empty object, no
-- evidence and no error.
pub record IsContent (raw : Dict Value) (a : BridgeResponse) : Type 0 where
  pub result :
      (lookup "result" raw ≡ some (object a.result))
      ⊎ (IsAbsent (lookup "result" raw) × (a.result ≡ end))
  pub evidence :
      (lookup "evidence" raw ≡ some (array (items_of a.evidence)))
      ⊎ (IsAbsent (lookup "evidence" raw) × (a.evidence ≡ []))
  pub failure : (f : Fields) → (a.error ≡ some f) ↔ (lookup "error" raw ≡ some (object f))
  pub no_failure : a.error ≡ none → (lookup "error" raw ≡ none) ⊎ (lookup "error" raw ≡ some null)

-- A response that belongs to a request under a session.
pub record IsAnswer (raw : Dict Value) (request_id operation_id : String) (s : BridgeSession)
    (a : BridgeResponse) : Type 0 where
  pub typed : lookup "type" raw ≡ some (text "response")
  pub correlated : lookup "request_id" raw ≡ some (text request_id)
  pub operation : lookup "operation_id" raw ≡ some (text operation_id)
  pub fenced : is_number s.generation (lookup "bridge_generation" raw) ≡ true
  pub status : lookup "status" raw ≡ some (text a.status)
  pub allowed : contains a.status allowed_statuses ≡ true
  pub ids : (a.request_id ≡ request_id) × (a.operation_id ≡ operation_id)
  pub generation : a.bridge_generation ≡ s.generation
  pub content : IsContent raw a

pub is_text_lem : (s : String) (v : Option Value) → is_text s v ≡ true → v ≡ some (text s)
is_text_lem s none h = cc
is_text_lem s (some (text t)) h = ground (arith, h, eq_iff t s)
is_text_lem s (some v) h = cc

int_of_lem : (n : ℤ) (v : Option Value) → is_number n v ≡ true → int_of v ≡ n
int_of_lem n none h = cc
int_of_lem n (some (number m)) h = ground (arith, h)
int_of_lem n (some (boolean true)) h = ground (arith, h)
int_of_lem n (some (boolean false)) h = ground (arith, h)
int_of_lem n (some v) h = cc

pub member_lem :
    (states : List String) (v : Option Value) (s : String)
    → member states v ≡ ok s
    → (v ≡ some (text s)) × (contains s states ≡ true)
member_lem states none s h = cc
member_lem states (some (text t)) s h = elim (Bool-cases (contains t states)) [
  | inl there ↦ ground (arith, there, h)
  | inr absent ↦ ground (arith, absent, h)
]
member_lem states (some (array vs)) s h = cc
member_lem states (some (object fs)) s h = cc
member_lem states (some v) s h = cc

result_of_lem :
    (v : Option Value) (f : Fields)
    → result_of (or_empty v) ≡ ok f
    → (v ≡ some (object f)) ⊎ (IsAbsent v × (f ≡ end))
result_of_lem none f h = inr (tt, ground (arith, h))
result_of_lem (some v) f h = elim (Bool-cases (truthy v)) [
  | inl there ↦ inl (ap some (result_of_object v f (rw there at h)))
  | inr empty ↦ inr (empty, result_of_end v f empty h)
]
  where
    result_of_object : (v : Value) (f : Fields) → result_of v ≡ ok f → v ≡ object f
    result_of_object (object g) f h = ground (arith, h)
    result_of_object v f h = cc

    result_of_end :
        (v : Value) (f : Fields) → truthy v ≡ false → result_of (or_empty (some v)) ≡ ok f → f ≡ end
    result_of_end v f e h = ground (arith, e, h)

objects_of_lem : (vs : Items) (fs : List Fields) → objects_of vs ≡ ok fs → vs ≡ items_of fs
unfolding objects_of
objects_of_lem nil fs h = ground (arith, h)
objects_of_lem (cons v vs) fs h = elim (Result-cases (objects_of vs)) [
  | inl (x, e) ↦ absurd (bad x v (ap (and_object v) (sym e) ∙ h))
  | inr (gs, e) ↦ together v gs (objects_of_lem vs gs e) (ap (and_object v) (sym e) ∙ h)
]
  where
    bad : (x : Error) (v : Value) → and_object v (err x) ≡ ok fs → ⊥
    bad x (object f) h = cc
    bad x v h = cc

    together :
        (v : Value) (gs : List Fields)
        → vs ≡ items_of gs
        → and_object v (ok gs) ≡ ok fs
        → cons v vs ≡ items_of fs
    together (object f) gs e h =
        let same : f ∷ gs ≡ fs = ground (arith, h) in
        subst (λ o. cons (object f) vs ≡ items_of o) same (ap (cons (object f)) e)
    together v gs e h = cc

evidence_of_lem :
    (v : Option Value) (fs : List Fields)
    → evidence_of v ≡ ok fs
    → (v ≡ some (array (items_of fs))) ⊎ (IsAbsent v × (fs ≡ []))
evidence_of_lem none fs h = inr (tt, ground (arith, h))
evidence_of_lem (some (array vs)) fs h = inl (ap (λ x. some (array x)) (objects_of_lem vs fs h))
evidence_of_lem (some v) fs h = elim (Bool-cases (truthy v)) [
  | inl there ↦ ground (arith, there, h)
  | inr empty ↦ inr (empty, ground (arith, empty, h))
]

error_of-some :
    (v : Option Value) (o : Option Fields) (f : Fields)
    → error_of v ≡ ok o
    → (o ≡ some f) ↔ (v ≡ some (object f))
error_of-some none o f h = (λ e. ground (arith, h, e), λ e. cc)
error_of-some (some null) o f h = (λ e. ground (arith, h, e), λ e. cc)
error_of-some (some (object g)) o f h = (λ e. ground (arith, h, e), λ e. ground (arith, h, e))
error_of-some (some v) o f h = cc

error_of-none :
    (v : Option Value) (o : Option Fields)
    → error_of v ≡ ok o
    → o ≡ none
    → (v ≡ none) ⊎ (v ≡ some null)
error_of-none none o h e = inl refl
error_of-none (some null) o h e = inr refl
error_of-none (some (object g)) o h e = ground (arith, h, e)
error_of-none (some v) o h e = cc

-- What a chain of four steps that succeeds says of the response.
chain_parts :
    (rid oid : String) (g : ℤ) (st : Result String) (re : Result Fields) (ev : Result (List Fields))
    (er : Result (Option Fields)) (a : BridgeResponse)
    → (st >>= λ status. re >>= λ result. ev >>= λ evidence. er >>= λ error. ok (record {
      request_id = rid;
      operation_id = oid;
      status = status;
      result = result;
      evidence = evidence;
      error = error;
      bridge_generation = g;
    }))
      ≡ ok a
    → (st ≡ ok a.status)
      × (a.request_id ≡ rid)
      × (a.operation_id ≡ oid)
      × (a.bridge_generation ≡ g)
      × (re ≡ ok a.result)
      × (ev ≡ ok a.evidence)
      × (er ≡ ok a.error)
chain_parts rid oid g (err x) re ev er a h = cc
chain_parts rid oid g (ok st) (err x) ev er a h = cc
chain_parts rid oid g (ok st) (ok re) (err x) er a h = cc
chain_parts rid oid g (ok st) (ok re) (ok ev) (err x) a h = cc
chain_parts rid oid g (ok st) (ok re) (ok ev) (ok er) a h = ground (arith, h)

module _ (raw : Dict Value) (request_id operation_id : String) (s : BridgeSession)
    (a : BridgeResponse) where
  answered-IsAnswer :
      lookup "type" raw ≡ some (text "response")
      → lookup "request_id" raw ≡ some (text request_id)
      → lookup "operation_id" raw ≡ some (text operation_id)
      → is_number s.generation (lookup "bridge_generation" raw) ≡ true
      → answered raw request_id operation_id ≡ ok a
      → IsAnswer raw request_id operation_id s a
  answered-IsAnswer t r o g h =
      let (status, rid, oid, generation, result, evidence, failure) =
        chain_parts request_id operation_id (int_of (lookup "bridge_generation" raw))
          (member allowed_statuses (lookup "status" raw))
          (result_of (or_empty (lookup "result" raw))) (evidence_of (lookup "evidence" raw))
          (error_of (lookup "error" raw)) a h in
      let (at, among) = member_lem allowed_statuses (lookup "status" raw) a.status status in
      record {
        typed = t;
        correlated = r;
        operation = o;
        fenced = g;
        status = at;
        allowed = among;
        ids = (rid, oid);
        generation = generation ∙ int_of_lem s.generation (lookup "bridge_generation" raw) g;
        content = record {
          result = result_of_lem (lookup "result" raw) a.result result;
          evidence = evidence_of_lem (lookup "evidence" raw) a.evidence evidence;
          failure = λ f. error_of-some (lookup "error" raw) a.error f failure;
          no_failure = error_of-none (lookup "error" raw) a.error failure;
        };
      }

-- A response is taken only if it is one to the request, for the operation and of the generation of the
-- session, with one of the allowed statuses.
pub parse_response-IsAnswer :
    (fields : Fields) (request_id operation_id : String) (s : BridgeSession) (a : BridgeResponse)
    → parse_response fields request_id operation_id s ≡ ok a
    → IsAnswer (entries fields) request_id operation_id s a
unfolding parse_response
parse_response-IsAnswer fields request_id operation_id s a h =
    let raw : Dict Value = entries fields in
    elim (Bool-cases (is_text "response" (lookup "type" raw))) [
      | inr x ↦ ground (arith, x, h)
      | inl t ↦ elim (Bool-cases (is_text request_id (lookup "request_id" raw))) [
        | inr x ↦ ground (arith, t, x, h)
        | inl r ↦ elim (Bool-cases (is_text operation_id (lookup "operation_id" raw))) [
          | inr x ↦ ground (arith, t, r, x, h)
          | inl o ↦ elim (Bool-cases (is_number s.generation (lookup "bridge_generation" raw))) [
            | inr x ↦ ground (arith, t, r, o, x, h)
            | inl g ↦
                answered-IsAnswer raw request_id operation_id s a
                  (is_text_lem "response" (lookup "type" raw) t)
                  (is_text_lem request_id (lookup "request_id" raw) r)
                  (is_text_lem operation_id (lookup "operation_id" raw) o) g (rw (t, r, o, g) at h)
          ]
        ]
      ]
    ]
