-- ===== src/Bridge/Greeting.antt =====
-- What a session is like that `_parse_hello_ack` (liandanlu_native/desktop_bridge.py) returns.
use codex_test.Prelude.{
  ℕ, ◌≡◌, ◌≢◌, refl, sym, subst, String, Bool, true, false, Option, none, some, [], ◌∷◌, ◌==◌, inl,
  inr, arith, eq_iff, Bool-cases, Result-cases, ◌⊎◌, ap, ◌∙◌, Result, ok, err,
}
use codex_test.Prelude.Dict.{Dict, lookup}
use codex_test.Prelude.Int.{ℤ, pos, negsuc, not_positive}
use codex_test.Prelude.Json.{Value, boolean, number, text, object, Fields, entries}
use codex_test.Bridge.Responses.{is_text_lem}
use codex_test.Bridge.Session.{
  BridgeCapability, BridgeSession, is_text, is_number, parse_capabilities, instance_of,
  generation_of, raw_capabilities, remote_error, or_empty, parse_hello_ack, ◌>>=◌,
}
use codex_test.Bridge.Client.{Peer, is_verified}
use codex_test.Bridge.Offers.{
  AreOffered, parse_capabilities-AreOffered, has_key, parse_capabilities_keys,
}

-- The capabilities of a session are those listed; without a list there are none.
abbrev pub IsListed : Option Value → Dict BridgeCapability → Type 0
IsListed v d =
    ((v ≡ none) × (d ≡ []))
    ⊎ ((fs : Fields) × (v ≡ some (object fs))
        × AreOffered (entries fs) d
        × ((k : String) → has_key k d ≡ has_key k (entries fs)))

-- What a session is like that was made from an acknowledgement. In JSON `true` equals the version 1, too.
pub record IsSession (p : Peer) (ack : Dict Value) (s : BridgeSession) : Type 0 where
  pub typed : lookup "type" ack ≡ some (text "hello_ack")
  pub version :
      (lookup "protocol_version" ack ≡ some (number (pos 1)))
      ⊎ (lookup "protocol_version" ack ≡ some (boolean true))
  pub instance :
      (lookup "bridge_instance_id" ack ≡ some (text s.bridge_instance_id))
      × (s.bridge_instance_id ≢ "")
  pub generation :
      (lookup "generation" ack ≡ some (number s.generation)) × (not_positive s.generation ≡ false)
  pub offers : IsListed (lookup "capabilities" ack) s.capabilities
  pub verified : s.peer_uid_verified ≡ is_verified p
  pub uid : s.peer_uid ≡ p.uid

version_lem :
    (v : Option Value)
    → is_number (pos 1) v ≡ true
    → (v ≡ some (number (pos 1))) ⊎ (v ≡ some (boolean true))
version_lem none h = cc
version_lem (some (number (pos n))) h = inl (ap (λ m. some (number (pos m))) (ground (arith, h)))
version_lem (some (number (negsuc n))) h = ground (arith, h)
version_lem (some (boolean true)) h = inr refl
version_lem (some (boolean false)) h = ground (arith, h)
version_lem (some v) h = cc

instance_lem :
    (v : Option Value) (i : String) → instance_of v ≡ ok i → (v ≡ some (text i)) × (i ≢ "")
instance_lem none i h = cc
instance_lem (some (text t)) i h = elim (Bool-cases (t == "")) [
  | inl bare ↦ ground (arith, bare, h)
  | inr named ↦ (ground (arith, named, h), λ e. ground (arith, h, e, named, eq_iff t ""))
]
instance_lem (some v) i h = cc

generation_lem :
    (v : Option Value) (n : ℤ)
    → generation_of v ≡ ok n
    → (v ≡ some (number n)) × (not_positive n ≡ false)
generation_lem none n h = cc
generation_lem (some (number m)) n h = elim (Bool-cases (not_positive m)) [
  | inl bad ↦ ground (arith, bad, h)
  | inr good ↦
      let same : m ≡ n = ground (arith, good, h) in
      (ap (λ k. some (number k)) same, subst (λ k. not_positive k ≡ false) same good)
]
generation_lem (some v) n h = cc

listed_lem :
    (v : Option Value) (raw : Dict Value) (d : Dict BridgeCapability)
    → raw_capabilities v ≡ ok raw
    → parse_capabilities raw [] ≡ ok d
    → IsListed v d
unfolding parse_capabilities lookup
listed_lem none [] d h e = inl (refl, ground (arith, e))
listed_lem none (x ∷ xs) d h e = cc
listed_lem (some (object fs)) raw d h e =
    let same : raw ≡ entries fs = ground (arith, h) in
    let f : parse_capabilities (entries fs) [] ≡ ok d =
      subst (λ r. parse_capabilities r [] ≡ ok d) same e in
    inr (
      fs,
      refl,
      parse_capabilities-AreOffered (entries fs) (entries fs) [] d (λ m v has. has) tt f,
      λ k. ground (arith, parse_capabilities_keys k (entries fs) [] d f),
    )
listed_lem (some v) raw d h e = cc

-- The parts of an acknowledgement that is taken.
acknowledged_parts :
    (u : Option ℕ) (b : Bool) (ir : Result String) (g : Result ℤ) (raw : Result (Dict Value))
    (s : BridgeSession)
    → (ir >>= λ instance_id. g >>= λ generation. raw >>= λ caps.
        parse_capabilities caps [] >>= λ capabilities. ok (record {
          bridge_instance_id = instance_id;
          generation = generation;
          capabilities = capabilities;
          peer_uid = u;
          peer_uid_verified = b;
        }))
      ≡ ok s
    → (ir ≡ ok s.bridge_instance_id)
      × (g ≡ ok s.generation)
      × ((caps : Dict Value) × (raw ≡ ok caps) × (parse_capabilities caps [] ≡ ok s.capabilities))
      × (s.peer_uid ≡ u)
      × (s.peer_uid_verified ≡ b)
acknowledged_parts u b (err x) g raw s h = cc
acknowledged_parts u b (ok i) (err x) raw s h = cc
acknowledged_parts u b (ok i) (ok g) (err x) s h = cc
acknowledged_parts u b (ok i) (ok g) (ok caps) s h =
    elim (Result-cases (parse_capabilities caps [])) [
      | inl (x, e) ↦ ground (arith, e, h)
      | inr (d, e) ↦
          let same : s.capabilities ≡ d = ground (arith, e, h) in
          (
            ground (arith, e, h),
            ground (arith, e, h),
            (caps, refl, e ∙ ap ok (sym same)),
            ground (arith, e, h),
            ground (arith, e, h),
          )
    ]

remote_error_lem :
    (repr : Value → String) (v : Value) (s : BridgeSession) → remote_error repr v ≡ ok s → ⊥
remote_error_lem repr (object fs) s h = cc
remote_error_lem repr v s h = cc

-- A handshake that is taken is of version 1, and gives a session with the capabilities it lists.
pub parse_hello_ack-IsSession :
    (repr : Value → String) (ack : Fields) (p : Peer) (s : BridgeSession)
    → parse_hello_ack repr ack p.uid (is_verified p) ≡ ok s
    → IsSession p (entries ack) s
unfolding parse_hello_ack
parse_hello_ack-IsSession repr ack p s h =
    elim (Bool-cases (is_text "error" (lookup "type" (entries ack)))) [
      | inl e ↦
          absurd (remote_error_lem repr (or_empty (lookup "error" (entries ack))) s (rw e at h))
      | inr f ↦ elim (Bool-cases (is_text "hello_ack" (lookup "type" (entries ack)))) [
        | inr x ↦ ground (arith, f, x, h)
        | inl t ↦ elim (Bool-cases (is_number (pos 1) (lookup "protocol_version" (entries ack)))) [
          | inr x ↦ ground (arith, f, t, x, h)
          | inl v ↦
              let (i, g, (caps, raw, parsed), u, b) =
                acknowledged_parts p.uid (is_verified p)
                  (instance_of (lookup "bridge_instance_id" (entries ack)))
                  (generation_of (lookup "generation" (entries ack)))
                  (raw_capabilities (lookup "capabilities" (entries ack))) s (rw (f, t, v) at h) in
              record {
                typed = is_text_lem "hello_ack" (lookup "type" (entries ack)) t;
                version = version_lem (lookup "protocol_version" (entries ack)) v;
                instance =
                    instance_lem (lookup "bridge_instance_id" (entries ack)) s.bridge_instance_id i;
                generation = generation_lem (lookup "generation" (entries ack)) s.generation g;
                offers =
                    listed_lem (lookup "capabilities" (entries ack)) caps s.capabilities raw parsed;
                verified = b;
                uid = u;
              }
        ]
      ]
    ]
