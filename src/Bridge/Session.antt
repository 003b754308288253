-- ===== src/Bridge/Session.antt =====
-- The messages of liandanlu_native/desktop_bridge.py: the acknowledgement of the handshake and the
-- response to a request. `repr` is Python's, for values that are no text. A value that is no text is
-- in no set of texts; an array or an object cannot be looked for in a set, which raises.
use Prim.Native.Char.{code}
use codex_test.Prelude.{
  ℕ, String, Bool, true, false, not, Option, none, some, List, [], ◌∷◌, ◌==◌, ◌&&◌, ◌||◌, leb,
  nat_eq, length, every, contains, if◌then◌else◌, Result, ok, err, type_error, attribute_error,
  bridge_protocol, bridge_remote, stale_generation,
}
use codex_test.Prelude.Dict.{Dict, lookup, insert}
use codex_test.Prelude.Int.{ℤ, pos, eq_ℤ, not_positive}
use codex_test.Prelude.Json.{
  Value, null, boolean, number, text, array, object, Items, nil, cons, Fields, end, entries, to_str,
  truthy,
}

pub record BridgeCapability : Type 0 where
  pub method : String
  pub state : String
  pub details : Dict Value

pub record BridgeSession : Type 0 where
  pub bridge_instance_id : String
  pub generation : ℤ
  pub capabilities : Dict BridgeCapability
  pub peer_uid : Option ℕ
  pub peer_uid_verified : Bool

-- `BridgeCapability.available`
unfoldable pub is_available : BridgeCapability → Bool
is_available c = c.state == "available"

-- `BridgeSession.capability`
unfoldable pub capability : String → BridgeSession → Option BridgeCapability
capability method s = lookup method s.capabilities

abbrev supports_with : Option BridgeCapability → Bool
supports_with none = false
supports_with (some c) = is_available c

unfoldable pub supports : String → BridgeSession → Bool
unfolding is_available capability
supports method s = supports_with (capability method s)

pub record BridgeResponse : Type 0 where
  pub request_id : String
  pub operation_id : String
  pub status : String
  pub result : Fields
  pub evidence : List Fields
  pub error : Option Fields
  pub bridge_generation : ℤ

abbrev codes : String → List ℕ
codes String.[] = []
codes (String.◌∷◌ c s) = code c ∷ codes s

abbrev is_lower : ℕ → Bool
is_lower c = leb b'a' c && leb c b'z'

-- `[a-z0-9_.-]`
abbrev is_method_code : ℕ → Bool
is_method_code c =
    is_lower c || (leb b'0' c && leb c b'9') || nat_eq c b'_' || nat_eq c b'.' || nat_eq c b'-'

abbrev matches_codes : List ℕ → Bool
matches_codes [] = false
matches_codes (c ∷ cs) =
    is_lower c && every is_method_code cs && leb 1 (length cs) && leb (length cs) 127

-- `_METHOD_RE.fullmatch(method)`
unfoldable pub is_method : String → Bool
is_method s = matches_codes (codes s)

-- `value == "..."`
abbrev pub is_text : String → Option Value → Bool
is_text s (some (text t)) = t == s
is_text s _ = false

-- `value == n`: True is 1 and False is 0.
abbrev pub is_number : ℤ → Option Value → Bool
is_number n (some (number m)) = eq_ℤ m n
is_number n (some (boolean true)) = eq_ℤ (pos 1) n
is_number n (some (boolean false)) = eq_ℤ (pos 0) n
is_number n _ = false

-- `value or {}`
abbrev pub or_empty : Option Value → Value
or_empty none = object end
or_empty (some v) = if truthy v then v else object end

abbrev text_or : (Value → String) → String → Option Value → String
text_or repr default none = default
text_or repr default (some v) = to_str repr v

-- `BridgeRemoteError(str(error.get("code", "bridge_error")), ...)`
abbrev pub remote_error : (Value → String) → Value → Result BridgeSession
remote_error repr (object e) =
    err (bridge_remote (text_or repr "bridge_error" (lookup "code" (entries e))))
remote_error repr _ = err attribute_error

abbrev pub capability_states : List String
capability_states = "available" ∷ "permission_required" ∷ "unavailable" ∷ []

-- `value in {...}`, with the text that it is then.
abbrev pub member : List String → Option Value → Result String
member states (some (text s)) = if contains s states then ok s else err bridge_protocol
member states (some (array vs)) = err type_error
member states (some (object fs)) = err type_error
member states _ = err bridge_protocol

abbrev pub without_state : Dict Value → Dict Value
without_state [] = []
without_state ((k, v) ∷ d) =
    let rest = without_state d in if k == "state" then rest else (k, v) ∷ rest

abbrev pub described : String → Result String → Dict Value → Result BridgeCapability
described method (err x) details = err x
described method (ok state) details =
    ok (record { method = method; state = state; details = details })

-- One round of the loop over the capabilities.
unfoldable pub parse_capability : String → Value → Result BridgeCapability
unfolding is_method
parse_capability method (text s) =
    if is_method method
    then described method (member capability_states (some (text s))) []
    else err bridge_protocol
parse_capability method (object fs) =
    if is_method method
    then described method (member capability_states (lookup "state" (entries fs)))
        (without_state (entries fs))
    else err bridge_protocol
parse_capability method _ = err bridge_protocol

unfoldable pub parse_capabilities :
    Dict Value → Dict BridgeCapability → Result (Dict BridgeCapability)
unfolding parse_capability
parse_capabilities [] d = ok d
parse_capabilities ((method, raw) ∷ caps) d = elim (parse_capability method raw) [
  | err x ↦ err x
  | ok c ↦ parse_capabilities caps (insert method c d)
]

-- `ack.get("capabilities", {})`
abbrev pub raw_capabilities : Option Value → Result (Dict Value)
raw_capabilities none = ok []
raw_capabilities (some (object fs)) = ok (entries fs)
raw_capabilities (some v) = err bridge_protocol

abbrev pub instance_of : Option Value → Result String
instance_of (some (text s)) = if s == "" then err bridge_protocol else ok s
instance_of _ = err bridge_protocol

abbrev pub generation_of : Option Value → Result ℤ
generation_of (some (number n)) = if not_positive n then err bridge_protocol else ok n
generation_of _ = err bridge_protocol

infixl 5 ◌>>=◌
abbrev pub ◌>>=◌ : {A B : Type 0} → Result A → (A → Result B) → Result B
step >>= next = elim step [ ok value ↦ next value | err x ↦ err x ]

-- What `hello_ack` says once its type and version are right.
abbrev pub acknowledged : Dict Value → Option ℕ → Bool → Result BridgeSession
acknowledged ack uid verified = do
  instance_id ← instance_of (lookup "bridge_instance_id" ack)
  generation ← generation_of (lookup "generation" ack)
  raw ← raw_capabilities (lookup "capabilities" ack)
  capabilities ← parse_capabilities raw []
  ok (record {
    bridge_instance_id = instance_id;
    generation = generation;
    capabilities = capabilities;
    peer_uid = uid;
    peer_uid_verified = verified;
  })

unfoldable pub parse_hello_ack : (Value → String) → Fields → Option ℕ → Bool → Result BridgeSession
unfolding parse_capabilities
parse_hello_ack repr fields uid verified =
    let ack = entries fields in
    if is_text "error" (lookup "type" ack)
    then remote_error repr (or_empty (lookup "error" ack))
    else if not (is_text "hello_ack" (lookup "type" ack))
    then err bridge_protocol
    else if not (is_number (pos 1) (lookup "protocol_version" ack))
    then err bridge_protocol
    else acknowledged ack uid verified

abbrev pub allowed_statuses : List String
allowed_statuses = "succeeded" ∷ "blocked" ∷ "failed" ∷ "unknown" ∷ "cancelled" ∷ []

abbrev pub result_of : Value → Result Fields
result_of (object fs) = ok fs
result_of v = err bridge_protocol

abbrev pub and_object : Value → Result (List Fields) → Result (List Fields)
and_object (object fs) (ok rest) = ok (fs ∷ rest)
and_object (object fs) (err x) = err x
and_object v rest = err bridge_protocol

unfoldable pub objects_of : Items → Result (List Fields)
objects_of nil = ok []
objects_of (cons v vs) = and_object v (objects_of vs)

-- `raw.get("evidence") or []`
abbrev pub evidence_of : Option Value → Result (List Fields)
evidence_of none = ok []
evidence_of (some (array vs)) = objects_of vs
evidence_of (some v) = if truthy v then err bridge_protocol else ok []

abbrev pub error_of : Option Value → Result (Option Fields)
error_of none = ok none
error_of (some null) = ok none
error_of (some (object fs)) = ok (some fs)
error_of (some v) = err bridge_protocol

-- `int(generation)`, once it equals a number.
abbrev pub int_of : Option Value → ℤ
int_of (some (number n)) = n
int_of (some (boolean true)) = pos 1
int_of _ = pos 0

abbrev pub answered : Dict Value → String → String → Result BridgeResponse
answered raw request_id operation_id = do
  status ← member allowed_statuses (lookup "status" raw)
  result ← result_of (or_empty (lookup "result" raw))
  evidence ← evidence_of (lookup "evidence" raw)
  error ← error_of (lookup "error" raw)
  ok (record {
    request_id = request_id;
    operation_id = operation_id;
    status = status;
    result = result;
    evidence = evidence;
    error = error;
    bridge_generation = int_of (lookup "bridge_generation" raw);
  })

unfoldable pub parse_response : Fields → String → String → BridgeSession → Result BridgeResponse
unfolding objects_of
parse_response fields request_id operation_id session =
    let raw = entries fields in
    if not (is_text "response" (lookup "type" raw))
    then err bridge_protocol
    else if not (is_text request_id (lookup "request_id" raw))
    then err bridge_protocol
    else if not (is_text operation_id (lookup "operation_id" raw))
    then err bridge_protocol
    else if not (is_number session.generation (lookup "bridge_generation" raw))
    then err stale_generation
    else answered raw request_id operation_id
