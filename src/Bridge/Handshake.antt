-- ===== src/Bridge/Handshake.antt =====
-- What `DesktopBridgeClient.connect` (liandanlu_native/desktop_bridge.py) accepts, and how it leaves
-- the client.
use codex_test.Prelude.{
  ℕ, ◌≡◌, refl, String, true, false, not, Option, none, some, List, [], ◌&&◌, inl, inr, arith,
  Bool-cases, is_some, Error, Result, ok, err, bridge_protocol, bridge_unavailable,
  bridge_transport,
}
use codex_test.Prelude.Json.{Value, object, Fields, entries}
use codex_test.Bridge.Frames.{Arrival, Codec, recv, encode}
use codex_test.Bridge.Session.{BridgeSession, parse_hello_ack}
use codex_test.Bridge.Client.{
  DesktopBridgeClient, Peer, is_verified, is_connected, hello, close, send, send_frame, sent_on,
  receive, settle, greeted, greet, connect_to, connect,
}
use codex_test.Bridge.Greeting.{IsSession, parse_hello_ack-IsSession}

-- The session was made from the frame that the peer answered with.
pub record IsGreeted (codec : Codec) (p : Peer) (c : DesktopBridgeClient) (s : BridgeSession)
    : Type 0 where
  pub arrivals : List Arrival
  pub accepted : p.accepts ≡ some arrivals
  pub ack : Fields
  pub received : (recv codec c.max_frame_bytes arrivals).0 ≡ ok ack
  pub session : IsSession p (entries ack) s

-- How a call of `connect` may end: with a session on a client that is connected by it, or with an
-- exception and a client as it was, or one that is not connected.
pub data Outcome (codec : Codec) (p : Peer) (c : DesktopBridgeClient)
    (r : Result BridgeSession × DesktopBridgeClient) : Type 0 where
  made :
      (s : BridgeSession)
      → r.0 ≡ ok s
      → r.1.session ≡ some s
      → is_connected r.1 ≡ true
      → IsGreeted codec p c s
      → (c.require_same_uid ≡ true → is_verified p ≡ true)
      → is_connected c ≡ false
      → Outcome codec p c r
  untouched : (x : Error) → r.0 ≡ err x → r.1 ≡ c → Outcome codec p c r
  closed : (x : Error) → r.0 ≡ err x → is_connected r.1 ≡ false → Outcome codec p c r

module _ (codec : Codec) (p : Peer) (c : DesktopBridgeClient) (arrivals : List Arrival)
    (accepted : p.accepts ≡ some arrivals) (before : is_connected c ≡ false)
    (uid : c.require_same_uid ≡ true → is_verified p ≡ true) where
  settle-Outcome :
      (q : Result BridgeSession) (d : DesktopBridgeClient)
      → is_some d.socket ≡ true
      → ((s : BridgeSession) → q ≡ ok s → IsGreeted codec p c s)
      → Outcome codec p c (settle q d)
  unfolding close is_connected
  settle-Outcome (err x) d k h = closed x refl refl
  settle-Outcome (ok s) d k h = made s refl refl (rw k) (h s refl) uid before

  greeted-Outcome :
      (repr : Value → String) (r : Result Fields) (d : DesktopBridgeClient)
      → is_some d.socket ≡ true
      → (recv codec c.max_frame_bytes arrivals).0 ≡ r
      → Outcome codec p c (greeted repr p (r, d))
  unfolding close is_connected
  greeted-Outcome repr (err x) d k h = closed x refl refl
  greeted-Outcome repr (ok ack) d k h =
      settle-Outcome (parse_hello_ack repr ack p.uid (is_verified p)) d k (λ s e. record {
        arrivals = arrivals;
        accepted = accepted;
        ack = ack;
        received = h;
        session = parse_hello_ack-IsSession repr ack p s e;
      })

  sent-Outcome :
      (repr : Value → String) (f : Result (List ℕ)) (failing : Option ℕ)
      → Outcome codec p c (
          greet repr codec p (
            sent_on
              (send_frame f failing (record { sent = []; arrivals = arrivals }))
              (record c { socket = some (record { sent = []; arrivals = arrivals }) })))
  unfolding close is_connected receive
  sent-Outcome repr (err x) failing = closed x refl refl
  sent-Outcome repr (ok frame) (some n) = closed bridge_transport refl refl
  sent-Outcome repr (ok frame) none =
      greeted-Outcome repr (recv codec c.max_frame_bytes arrivals).0 _ refl refl

-- A client gets a session only from a peer of its own user, where it asks for that, and from the frame that
-- the peer answers with: a hello_ack of the right version, whose instance, positive generation and
-- capabilities the session has, each capability under a well-formed method and in one of the three states.
-- A call that raises leaves the client as it was or not connected.
pub connect-Outcome :
    (repr : Value → String) (codec : Codec) (p : Peer) (c : DesktopBridgeClient)
    → Outcome codec p c (connect repr codec p c)
unfolding connect send
connect-Outcome repr codec p c = elim (Bool-cases (is_connected c)) [
  | inl already ↦ rw already (untouched bridge_protocol refl refl)
  | inr before ↦ rw before (fresh p.accepts refl before)
]
  where
    fresh :
        (o : Option (List Arrival))
        → p.accepts ≡ o
        → is_connected c ≡ false
        → Outcome codec p c (connect_to o repr codec p c)
    fresh none accepted before = untouched bridge_unavailable refl refl
    fresh (some arrivals) accepted before =
        elim (Bool-cases (c.require_same_uid && not (is_verified p))) [
          | inl foreign ↦ rw foreign (untouched bridge_protocol refl refl)
          | inr same ↦ rw same (
              sent-Outcome codec p c arrivals accepted before (λ e. ground (arith, same, e)) repr
                (encode codec (object (hello c)) c.max_frame_bytes) p.failing)
        ]
