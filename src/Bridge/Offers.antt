-- ===== src/Bridge/Offers.antt =====
-- The capabilities that a handshake lists (liandanlu_native/desktop_bridge.py).
use codex_test.Prelude.{
  ◌≡◌, refl, sym, subst, String, Bool, true, Option, some, [], ◌∷◌, ◌==◌, inl, inr, arith, contains,
  Bool-cases, Result-cases, All, is_some, if◌then◌else◌, ◌⊎◌, ◌||◌, ap, ◌∙◌, Result, ok, err,
  bridge_protocol,
}
use codex_test.Prelude.Dict.{Dict, lookup, insert, lookup-insert}
use codex_test.Prelude.Json.{Value, text, object, Fields, entries}
use codex_test.Bridge.Responses.{member_lem}
use codex_test.Bridge.Session.{
  BridgeCapability, is_method, member, capability_states, described, parse_capability,
  parse_capabilities, without_state,
}

-- A member of a dict, whether another has its key or not.
abbrev pub Has : String → Value → Dict Value → Type 0
Has method v [] = ⊥
Has method v ((k, w) ∷ d) = ((k ≡ method) × (w ≡ v)) ⊎ Has method v d

-- A descriptor that gives a state: its text, or an object with the state.
abbrev pub States : Value → String → Type 0
States v state =
    (v ≡ text state)
    ⊎ ((fs : Fields) × (v ≡ object fs) × (lookup "state" (entries fs) ≡ some (text state)))

-- A capability that may be kept under a method.
pub record IsOffered (raw : Dict Value) (method : String) (c : BridgeCapability) : Type 0 where
  pub well_formed : is_method method ≡ true
  pub named : c.method ≡ method
  pub allowed : contains c.state capability_states ≡ true
  pub listed : (v : Value) × Has method v raw × States v c.state

described_lem :
    (method : String) (r : Result String) (details : Dict Value) (c : BridgeCapability)
    → described method r details ≡ ok c
    → (r ≡ ok c.state) × (c.method ≡ method)
described_lem method (err x) details c h = cc
described_lem method (ok s) details c h = ground (arith, h)

offered :
    (method : String) (v : Option Value) (details : Dict Value) (c : BridgeCapability)
    → (if is_method method
        then described method (member capability_states v) details
        else err bridge_protocol)
      ≡ ok c
    → (is_method method ≡ true)
      × (c.method ≡ method)
      × (v ≡ some (text c.state))
      × (contains c.state capability_states ≡ true)
offered method v details c h = elim (Bool-cases (is_method method)) [
  | inl good ↦
      let (state, named) =
        described_lem method (member capability_states v) details c (rw good at h) in
      let (at, among) = member_lem capability_states v c.state state in (good, named, at, among)
  | inr bad ↦ ground (arith, bad, h)
]

parse_capability-IsOffered :
    (raw : Dict Value) (method : String) (v : Value) (c : BridgeCapability)
    → Has method v raw
    → parse_capability method v ≡ ok c
    → IsOffered raw method c
unfolding parse_capability
parse_capability-IsOffered raw method (text s) c has h =
    let (good, named, at, among) = offered method (some (text s)) [] c h in
    record {
      well_formed = good;
      named = named;
      allowed = among;
      listed = (text s, has, inl (ground (arith, at)));
    }
parse_capability-IsOffered raw method (object fs) c has h =
    let (good, named, at, among) =
      offered method (lookup "state" (entries fs)) (without_state (entries fs)) c h in
    record {
      well_formed = good;
      named = named;
      allowed = among;
      listed = (object fs, has, inr (fs, refl, at));
    }
parse_capability-IsOffered raw method v c has h = cc

-- Every capability stands under its own well-formed method, in one of the three states and as it is listed.
abbrev pub AreOffered : Dict Value → Dict BridgeCapability → Type 0
AreOffered raw = All (λ e. IsOffered raw e.0 e.1)

insert-AreOffered :
    (raw : Dict Value) (method : String) (c : BridgeCapability) (d : Dict BridgeCapability)
    → IsOffered raw method c
    → AreOffered raw d
    → AreOffered raw (insert method c d)
unfolding insert
insert-AreOffered raw method c [] o h = (o, tt)
insert-AreOffered raw method c ((j, w) ∷ d) o h = elim (Bool-cases (j == method)) [
  | inl same ↦ rw same (o, h.1)
  | inr other ↦ rw other (h.0, insert-AreOffered raw method c d o h.1)
]

parse_capabilities_next :
    (method : String) (v : Value) (caps : Dict Value) (d : Dict BridgeCapability)
    (c : BridgeCapability)
    → parse_capability method v ≡ ok c
    → parse_capabilities ((method, v) ∷ caps) d ≡ parse_capabilities caps (insert method c d)
unfolding parse_capabilities
parse_capabilities_next method v caps d c e = rw (e, parse_capabilities)

pub parse_capabilities-AreOffered :
    (raw caps : Dict Value) (d out : Dict BridgeCapability)
    → ((m : String) (v : Value) → Has m v caps → Has m v raw)
    → AreOffered raw d
    → parse_capabilities caps d ≡ ok out
    → AreOffered raw out
unfolding parse_capabilities
parse_capabilities-AreOffered raw [] d out part o h = subst (AreOffered raw) (ground (arith, h)) o
parse_capabilities-AreOffered raw ((method, v) ∷ caps) d out part o h =
    elim (Result-cases (parse_capability method v)) [
      | inl (x, e) ↦ ground (arith, e, h)
      | inr (c, e) ↦
          parse_capabilities-AreOffered raw caps (insert method c d) out
            (λ m w has. part m w (inr has))
            (insert-AreOffered raw method c d
              (parse_capability-IsOffered raw method v c (part method v (inl (refl, refl))) e) o)
            (sym (parse_capabilities_next method v caps d c e) ∙ h)
    ]

abbrev pub has_key {ℓ} : {V : Type ℓ} → String → Dict V → Bool
has_key k d = is_some (lookup k d)

-- Of what is listed nothing is left out.
pub parse_capabilities_keys :
    (k : String) (caps : Dict Value) (d out : Dict BridgeCapability)
    → parse_capabilities caps d ≡ ok out
    → has_key k out ≡ (has_key k caps || has_key k d)
unfolding parse_capabilities lookup
parse_capabilities_keys k [] d out h = ap (has_key k) (sym (ground (arith, h)))
parse_capabilities_keys k ((method, v) ∷ caps) d out h =
    elim (Result-cases (parse_capability method v)) [
      | inl (x, e) ↦ ground (arith, e, h)
      | inr (c, e) ↦
          parse_capabilities_keys k caps (insert method c d) out
            (sym (parse_capabilities_next method v caps d c e) ∙ h)
          ∙ ground (arith, lookup-insert method k c d)
    ]
