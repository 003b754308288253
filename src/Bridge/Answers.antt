-- ===== src/Bridge/Answers.antt =====
-- What `DesktopBridgeClient.request` (liandanlu_native/desktop_bridge.py) sends, and which responses it
-- returns.
use codex_test.Prelude.{
  ℕ, ◌≡◌, ◌≢◌, refl, sym, ap, ap₂, ◌∙◌, true, false, not, Option, none, some, List, ◌++◌, ◌==◌,
  ◌||◌, inl, inr, ◌⊎◌, arith, eq_iff, Bool-cases, Option-cases, Result, ok, err, Error,
  bridge_unavailable,
}
use codex_test.Prelude.Int.{not_positive}
use codex_test.Prelude.Json.{object, Fields, entries}
use codex_test.Bridge.Frames.{Codec, encode, recv}
use codex_test.Bridge.Session.{
  BridgeCapability, BridgeSession, BridgeResponse, is_available, capability, is_method,
}
use codex_test.Bridge.Client.{
  DesktopBridgeClient, Socket, Request, check_request, check_capability, request, request_with,
  request_checked, exchanged, replied, send, send_with, send_frame, sent_on, receive, received_on,
  message_of,
}
use codex_test.Bridge.Responses.{IsAnswer, parse_response-IsAnswer}

-- What is tested before anything is sent.
pub record IsAsked (r : Request) (s : BridgeSession) : Type 0 where
  pub named : r.operation_id ≢ ""
  pub method : is_method r.method ≡ true
  pub deadline : not_positive r.deadline_after_ms ≡ false
  pub advertised :
      (c : BridgeCapability) × (capability r.method s ≡ some c) × (c.state ≡ "available")

check_capability_lem :
    (o : Option BridgeCapability)
    → check_capability o ≡ ok tt
    → (c : BridgeCapability) × (o ≡ some c) × (c.state ≡ "available")
unfolding is_available
check_capability_lem none h = cc
check_capability_lem (some c) h =
    (c, refl, ground (arith, h, eq_iff c.state "available", eq_iff c.state "permission_required"))

-- The checks pass exactly for a request that may be sent.
pub check_request-IsAsked :
    (r : Request) (s : BridgeSession) → check_request r s ≡ ok tt → IsAsked r s
unfolding check_request
check_request-IsAsked r s h = elim (Bool-cases (r.operation_id == "" || not (is_method r.method))) [
  | inl bad ↦ ground (arith, bad, h)
  | inr good ↦ elim (Bool-cases (not_positive r.deadline_after_ms)) [
    | inl late ↦ ground (arith, good, late, h)
    | inr due ↦ record {
      named = λ e. ground (arith, good, eq_iff r.operation_id "", e);
      method = ground (arith, good);
      deadline = due;
      advertised = check_capability_lem (capability r.method s) (ground (arith, good, due, h));
    }
  ]
]

-- An exchange that ended with a response.
pub record Exchange (codec : Codec) (r : Request) (c : DesktopBridgeClient) (a : BridgeResponse)
    (c' : DesktopBridgeClient) : Type 0 where
  pub session : BridgeSession
  pub socket : Socket
  pub frame : List ℕ
  pub raw : Fields
  pub connected : (c.session ≡ some session) × (c.socket ≡ some socket)
  pub asked : IsAsked r session
  pub encoded : encode codec (object (message_of r session)) c.max_frame_bytes ≡ ok frame
  pub received : (recv codec c.max_frame_bytes socket.arrivals).0 ≡ ok raw
  pub answer : IsAnswer (entries raw) r.request_id r.operation_id session a
  pub sent :
      c'.socket
      ≡ some (record {
        sent = socket.sent ++ frame;
        arrivals = (recv codec c.max_frame_bytes socket.arrivals).1;
      })

module _ (codec : Codec) (r : Request) (s : BridgeSession) (a : BridgeResponse) where
  replied_lem :
      (raw : Result Fields) (d c' : DesktopBridgeClient)
      → replied r s (raw, d) ≡ (ok a, c')
      → (fields : Fields) × (raw ≡ ok fields)
        × IsAnswer (entries fields) r.request_id r.operation_id s a
        × (d ≡ c')
  replied_lem (err x) d c' h = cc
  replied_lem (ok fields) d c' h = (
    fields,
    refl,
    parse_response-IsAnswer fields r.request_id r.operation_id s a (ap (λ p. p.0) h),
    ap (λ p. p.1) h,
  )

  after_send :
      (f : Result (List ℕ)) (failing : Option ℕ) (k : Socket) (c c' : DesktopBridgeClient)
      → exchanged codec r s (sent_on (send_frame f failing k) c) ≡ (ok a, c')
      → (frame : List ℕ) × (f ≡ ok frame)
        × (replied r s (
              received_on
                (recv codec c.max_frame_bytes k.arrivals)
                (record k { sent = k.sent ++ frame })
                (record c { socket = some (record k { sent = k.sent ++ frame }) }))
            ≡ (ok a, c'))
  unfolding receive
  after_send (err x) failing k c c' h = cc
  after_send (ok frame) none k c c' h = (frame, refl, h)
  after_send (ok frame) (some n) k c c' h = cc

  request_checked-Exchange :
      (q : Result (Unit {0})) (f : Result (List ℕ)) (k : Socket) (failing : Option ℕ)
      (c c' : DesktopBridgeClient)
      → check_request r s ≡ q
      → encode codec (object (message_of r s)) c.max_frame_bytes ≡ f
      → c.session ≡ some s
      → c.socket ≡ some k
      → request_checked q codec failing r s c ≡ (ok a, c')
      → Exchange codec r c a c'
  unfolding send
  request_checked-Exchange (err x) f k failing c c' e g p t h = cc
  request_checked-Exchange (ok u) f k failing c c' e g p t h =
      let (frame, whole, h1) = after_send f failing k c c' (
        sym (
          ap (λ o. exchanged codec r s (send_with o codec (message_of r s) failing c)) t
          ∙ ap (λ v. exchanged codec r s (sent_on (send_frame v failing k) c)) g)
        ∙ h) in
      let (raw, received, answer, kept) =
        replied_lem (recv codec c.max_frame_bytes k.arrivals).0 _ c' h1 in
      record {
        session = s;
        socket = k;
        frame = frame;
        raw = raw;
        connected = (p, t);
        asked = check_request-IsAsked r s e;
        encoded = g ∙ whole;
        received = received;
        answer = answer;
        sent = ap (λ (d : DesktopBridgeClient). d.socket) (sym kept);
      }

-- A request that returns a response was one that may be sent, on a connected client; its frame and no
-- more was sent, and the response is what was received next: it belongs to this request, and its status,
-- result, evidence and error are those of the message.
pub request-Exchange :
    (codec : Codec) (failing : Option ℕ) (r : Request) (c c' : DesktopBridgeClient)
    (a : BridgeResponse)
    → request codec failing r c ≡ (ok a, c')
    → Exchange codec r c a c'
unfolding request
request-Exchange codec failing r c c' a h = elim (Option-cases c.socket) [
  | inl e ↦ ground (arith, e, h)
  | inr (k, e) ↦ elim (Option-cases c.session) [
    | inl g ↦ ground (arith, e, g, h)
    | inr (s, g) ↦
        request_checked-Exchange codec r s a (check_request r s)
          (encode codec (object (message_of r s)) c.max_frame_bytes) k failing c c' refl refl g e
          (simp (e, g) at h)
  ]
]

checked_or :
    (q : Result (Unit {0})) (codec : Codec) (failing : Option ℕ) (r : Request) (s : BridgeSession)
    (c : DesktopBridgeClient)
    → check_request r s ≡ q
    → ((x : Error) × (request_checked q codec failing r s c ≡ (err x, c))) ⊎ IsAsked r s
checked_or (err x) codec failing r s c e = inl (x, refl)
checked_or (ok u) codec failing r s c e = inr (check_request-IsAsked r s e)

-- A request raises and leaves the client as it was, with nothing sent, unless the client is connected, the
-- request names an operation, a well-formed method and a positive deadline, and the bridge advertised the
-- method as available.
pub request-IsAsked :
    (codec : Codec) (failing : Option ℕ) (r : Request) (c : DesktopBridgeClient)
    → ((x : Error) × (request codec failing r c ≡ (err x, c)))
      ⊎ ((s : BridgeSession) × (k : Socket) × (c.session ≡ some s)
          × (c.socket ≡ some k)
          × IsAsked r s)
unfolding request
request-IsAsked codec failing r c = elim (Option-cases c.socket) [
  | inl e ↦ inl (bridge_unavailable, unconnected c.socket c.session e)
  | inr (k, e) ↦ elim (Option-cases c.session) [
    | inl g ↦ inl (bridge_unavailable, ap₂ (λ o p. request_with o p codec failing r c) e g)
    | inr (s, g) ↦ elim (checked_or (check_request r s) codec failing r s c refl) [
      | inl (x, same) ↦ inl (x, ap₂ (λ o p. request_with o p codec failing r c) e g ∙ same)
      | inr asked ↦ inr (s, k, g, e, asked)
    ]
  ]
]
  where
    unconnected :
        (o : Option Socket) (p : Option BridgeSession)
        → o ≡ none
        → request_with o p codec failing r c ≡ (err bridge_unavailable, c)
    unconnected none p h = refl
    unconnected (some k) p h = cc
