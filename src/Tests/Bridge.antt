-- ===== src/Tests/Bridge.antt =====
-- Runs of the desktop bridge of liandanlu_native/desktop_bridge.py, with a codec that knows a few
-- messages: a byte stands for each.
use codex_test.Prelude.{
  ℕ, ◌+◌, ◌≤◌, ◌≡◌, refl, true, false, none, some, List, [], ◌∷◌, ◌⊎◌, ok, err, bridge_protocol,
  bridge_transport, length, decode_error, nat_eq, Error, if◌then◌else◌, Result,
}
use codex_test.Prelude.Dict.{lookup, insert}
use codex_test.Prelude.Int.{pos}
use codex_test.Prelude.Json.{Value, text, number, object, Fields, field, end}
use codex_test.Bridge.Frames.{Arrival, chunk, timed_out, Codec, encode, recv}
use codex_test.Bridge.Stream.{ready}
use codex_test.Bridge.RoundTrip.{recv-encode}
use codex_test.Bridge.Limits.{recv_bounds}
use codex_test.Bridge.Session.{
  BridgeSession, BridgeResponse, is_method, parse_response, parse_hello_ack, is_available,
  capability,
}
use codex_test.Bridge.Client.{DesktopBridgeClient, Socket, Request, Peer, request, connect}
use codex_test.Bridge.Answers.{Exchange, IsAsked, request-Exchange, request-IsAsked}
use codex_test.Bridge.Handshake.{Outcome, connect-Outcome}

abbrev reply : Fields
reply = field "type" (text "response") (
    field "request_id" (text "req_1") (
      field "operation_id" (text "op_1")
        (field "bridge_generation" (number (pos 3)) (field "status" (text "succeeded") end))))

abbrev ack : Fields
ack = field "type" (text "hello_ack") (
    field "protocol_version" (number (pos 1)) (
      field "bridge_instance_id" (text "bridge") (
        field "generation" (number (pos 3))
          (field "capabilities" (object (field "app.open" (text "available") end)) end))))

abbrev loads_byte : List ℕ → Result Value
loads_byte (b ∷ []) = if nat_eq b 7 then ok (object reply) else ok (object ack)
loads_byte _ = err decode_error

-- Every message is dumped as the byte 7.
abbrev codec : Codec
codec = record { dumps = λ m. ok (7 ∷ []); loads = loads_byte }

-- A frame in three chunks, with the first byte of the next.
abbrev in_chunks : List Arrival
in_chunks = chunk 0 (0 ∷ 0 ∷ []) ∷ chunk 1 [] ∷ chunk 7 (0 ∷ []) ∷ timed_out ∷ []

recv-encode_example :
    ((recv codec 16 in_chunks).0 ≡ ok reply) × (ready (recv codec 16 in_chunks).1 ≡ 0 ∷ [])
unfolding encode ready
recv-encode_example =
    recv-encode codec end reply 16 (0 ∷ 0 ∷ 0 ∷ 1 ∷ 7 ∷ []) (7 ∷ []) (0 ∷ []) in_chunks refl refl
      refl refl

recv_bounds_example : length (ready in_chunks) ≤ 4 + 16 + length (ready (recv codec 16 in_chunks).1)
recv_bounds_example = (recv_bounds codec 16 in_chunks).0

-- A frame that is announced as too long, and one that is cut short.
recv_refused :
    ((recv codec 16 (chunk 0 (0 ∷ 1 ∷ 0 ∷ 7 ∷ []) ∷ [])).0 ≡ err bridge_protocol)
    × ((recv codec 16 (chunk 0 (0 ∷ 0 ∷ []) ∷ [])).0 ≡ err bridge_transport)
unfolding recv
recv_refused = (refl, refl)

methods :
    (is_method "app.open" ≡ true) × (is_method "Open the app" ≡ false) × (is_method "a" ≡ false)
unfolding is_method
methods = (refl, refl, refl)

abbrev asked : Request
asked = record {
  operation_id = "op_1";
  method = "app.open";
  locator_token = none;
  arguments = end;
  deadline_after_ms = pos 5000;
  request_id = "req_1";
  sent_at_unix_ms = 9;
}

abbrev session : BridgeSession
session = record {
  bridge_instance_id = "bridge";
  generation = pos 3;
  capabilities =
      ("app.open", record { method = "app.open"; state = "available"; details = [] }) ∷ [];
  peer_uid = some 501;
  peer_uid_verified = true;
}

abbrev fresh_client : DesktopBridgeClient
fresh_client = record {
  session_token = "token";
  engine_instance_id = "engine";
  max_frame_bytes = 16;
  require_same_uid = true;
  socket = none;
  session = none;
}

abbrev client : DesktopBridgeClient
client = record fresh_client {
  socket = some (record { sent = []; arrivals = in_chunks });
  session = some session;
}

abbrev answer : BridgeResponse
answer = record {
  request_id = "req_1";
  operation_id = "op_1";
  status = "succeeded";
  result = end;
  evidence = [];
  error = none;
  bridge_generation = pos 3;
}

abbrev answered_client : DesktopBridgeClient
answered_client = record client {
  socket = some (record { sent = 0 ∷ 0 ∷ 0 ∷ 1 ∷ 7 ∷ []; arrivals = chunk 0 [] ∷ timed_out ∷ [] });
}

request-Exchange_example : Exchange codec asked client answer answered_client
unfolding request lookup encode recv parse_response is_available capability
request-Exchange_example = request-Exchange codec none asked client answered_client answer refl

request-IsAsked_example :
    ((x : Error) × (request codec none (record asked { method = "app.close" }) client
        ≡ (err x, client)))
    ⊎ ((s : BridgeSession) × (k : Socket) × (client.session ≡ some s)
        × (client.socket ≡ some k)
        × IsAsked (record asked { method = "app.close" }) s)
request-IsAsked_example = request-IsAsked codec none (record asked { method = "app.close" }) client

abbrev peer : Peer
peer = record {
  accepts = some (chunk 0 (0 ∷ 0 ∷ 1 ∷ 8 ∷ []) ∷ []);
  uid = some 501;
  own_uid = some 501;
  failing = none;
}

connect-Outcome_example :
    Outcome codec peer fresh_client (connect (λ v. "None") codec peer fresh_client)
connect-Outcome_example = connect-Outcome (λ v. "None") codec peer fresh_client

connect_makes : (connect (λ v. "None") codec peer fresh_client).0 ≡ ok session
unfolding connect encode recv parse_hello_ack lookup insert
connect_makes = refl
