-- ===== src/Bridge/Client.antt =====
-- `DesktopBridgeClient` and `cleanup_stale_socket` of liandanlu_native/desktop_bridge.py. What the
-- operating system does is an argument: whether a connection is made and to whom, what arrives on it,
-- and after how many bytes a send fails. Timeouts of the socket stand in its arrivals.
use codex_test.Prelude.{
  ℕ, String, Bool, true, false, not, Option, none, some, List, [], ◌++◌, ◌==◌, ◌&&◌, nat_eq, take,
  is_some, if◌then◌else◌, Result, ok, err, value_error, bridge_transport, bridge_protocol,
  bridge_unavailable, bridge_remote,
}
use codex_test.Prelude.Int.{ℤ, pos, not_positive}
use codex_test.Prelude.Json.{Value, null, number, text, object, Fields, end, field}
use codex_test.Bridge.Frames.{Arrival, Codec, encode, recv}
use codex_test.Bridge.Session.{
  BridgeCapability, BridgeSession, BridgeResponse, is_available, capability, is_method,
  parse_hello_ack, parse_response,
}

-- A connected socket: what was sent on it and what arrives.
pub record Socket : Type 0 where
  pub sent : List ℕ
  pub arrivals : List Arrival

pub record DesktopBridgeClient : Type 0 where
  pub session_token : String
  pub engine_instance_id : String
  pub max_frame_bytes : ℕ
  pub require_same_uid : Bool
  pub socket : Option Socket
  pub session : Option BridgeSession

-- The constructor; `engine_instance_id` is the one given, or a new one.
unfoldable pub make_client : String → String → ℕ → Bool → Result DesktopBridgeClient
make_client session_token engine_instance_id max_frame_bytes require_same_uid =
    if session_token == ""
    then err value_error
    else ok (record {
      session_token = session_token;
      engine_instance_id = engine_instance_id;
      max_frame_bytes = max_frame_bytes;
      require_same_uid = require_same_uid;
      socket = none;
      session = none;
    })

unfoldable pub is_connected : DesktopBridgeClient → Bool
is_connected c = is_some c.socket && is_some c.session

unfoldable pub close : DesktopBridgeClient → DesktopBridgeClient
close c = record c { socket = none; session = none }

-- `sendall`: `none` sends all, `some n` fails after n bytes.
abbrev pub send_frame : Result (List ℕ) → Option ℕ → Socket → Result (Unit {0}) × Socket
send_frame (err x) failing s = (err x, s)
send_frame (ok frame) none s = (ok tt, record s { sent = s.sent ++ frame })
send_frame (ok frame) (some n) s =
    (err bridge_transport, record s { sent = s.sent ++ take n frame })

abbrev pub sent_on :
    Result (Unit {0}) × Socket → DesktopBridgeClient → Result (Unit {0}) × DesktopBridgeClient
sent_on (r, s) c = (r, record c { socket = some s })

abbrev pub send_with :
    Option Socket
    → Codec
    → Fields
    → Option ℕ
    → DesktopBridgeClient
    → Result (Unit {0}) × DesktopBridgeClient
send_with none codec message failing c = (err bridge_unavailable, c)
send_with (some s) codec message failing c =
    sent_on (send_frame (encode codec (object message) c.max_frame_bytes) failing s) c

-- `_send`
unfoldable pub send :
    Codec → Fields → Option ℕ → DesktopBridgeClient → Result (Unit {0}) × DesktopBridgeClient
send codec message failing c = send_with c.socket codec message failing c

abbrev pub received_on :
    Result Fields × List Arrival
    → Socket
    → DesktopBridgeClient
    → Result Fields × DesktopBridgeClient
received_on (r, rest) s c = (r, record c { socket = some (record s { arrivals = rest }) })

abbrev pub receive_with :
    Option Socket → Codec → DesktopBridgeClient → Result Fields × DesktopBridgeClient
receive_with none codec c = (err bridge_unavailable, c)
receive_with (some s) codec c = received_on (recv codec c.max_frame_bytes s.arrivals) s c

-- `_recv`
unfoldable pub receive : Codec → DesktopBridgeClient → Result Fields × DesktopBridgeClient
receive codec c = receive_with c.socket codec c

-- What the operating system does with a call of `connect`.
pub record Peer : Type 0 where
  pub accepts : Option (List Arrival)
  pub uid : Option ℕ
  pub own_uid : Option ℕ
  pub failing : Option ℕ

abbrev same_uid : Option ℕ → Option ℕ → Bool
same_uid (some a) (some b) = nat_eq a b
same_uid _ _ = false

-- `uid_verified`
abbrev pub is_verified : Peer → Bool
is_verified p = same_uid p.uid p.own_uid

abbrev pub hello : DesktopBridgeClient → Fields
hello c = field "type" (text "hello") (
    field "protocol_version" (number (pos 1)) (
      field "engine_instance_id" (text c.engine_instance_id)
        (field "session_token" (text c.session_token) end)))

-- The end of `connect`: the session is kept, or the client is closed and the exception goes on.
abbrev pub settle :
    Result BridgeSession → DesktopBridgeClient → Result BridgeSession × DesktopBridgeClient
settle (err x) c = (err x, close c)
settle (ok s) c = (ok s, record c { session = some s })

abbrev pub greeted :
    (Value → String)
    → Peer
    → Result Fields × DesktopBridgeClient
    → Result BridgeSession × DesktopBridgeClient
greeted repr p (err x, c) = settle (err x) c
greeted repr p (ok ack, c) = settle (parse_hello_ack repr ack p.uid (is_verified p)) c

abbrev pub greet :
    (Value → String)
    → Codec
    → Peer
    → Result (Unit {0}) × DesktopBridgeClient
    → Result BridgeSession × DesktopBridgeClient
greet repr codec p (err x, c) = settle (err x) c
greet repr codec p (ok u, c) = greeted repr p (receive codec c)

abbrev pub connect_to :
    Option (List Arrival)
    → (Value → String)
    → Codec
    → Peer
    → DesktopBridgeClient
    → Result BridgeSession × DesktopBridgeClient
connect_to none repr codec p c = (err bridge_unavailable, c)
connect_to (some arrivals) repr codec p c =
    if c.require_same_uid && not (is_verified p)
    then (err bridge_protocol, c)
    else let open_client : DesktopBridgeClient = record c {
      socket = some (record { sent = []; arrivals = arrivals });
    } in
      greet repr codec p (send codec (hello c) p.failing open_client)

unfoldable pub connect :
    (Value → String)
    → Codec
    → Peer
    → DesktopBridgeClient
    → Result BridgeSession × DesktopBridgeClient
unfolding close is_connected send receive
connect repr codec p c =
    if is_connected c then (err bridge_protocol, c) else connect_to p.accepts repr codec p c

-- What a call of `request` brings with it: its arguments, and a new request id and the time.
pub record Request : Type 0 where
  pub operation_id : String
  pub method : String
  pub locator_token : Option String
  pub arguments : Fields
  pub deadline_after_ms : ℤ
  pub request_id : String
  pub sent_at_unix_ms : ℕ

abbrev text_or_null : Option String → Value
text_or_null none = null
text_or_null (some s) = text s

abbrev pub message_of : Request → BridgeSession → Fields
message_of r s = field "type" (text "request") (
    field "protocol_version" (number (pos 1)) (
      field "request_id" (text r.request_id) (
        field "operation_id" (text r.operation_id) (
          field "method" (text r.method) (
            field "expected_bridge_generation" (number s.generation) (
              field "deadline_after_ms" (number r.deadline_after_ms) (
                field "sent_at_unix_ms" (number (pos r.sent_at_unix_ms)) (
                  field "locator_token" (text_or_null r.locator_token)
                    (field "arguments" (object r.arguments) end)))))))))

abbrev pub replied :
    Request
    → BridgeSession
    → Result Fields × DesktopBridgeClient
    → Result BridgeResponse × DesktopBridgeClient
replied r s (err x, c) = (err x, c)
replied r s (ok raw, c) = (parse_response raw r.request_id r.operation_id s, c)

abbrev pub exchanged :
    Codec
    → Request
    → BridgeSession
    → Result (Unit {0}) × DesktopBridgeClient
    → Result BridgeResponse × DesktopBridgeClient
exchanged codec r s (err x, c) = (err x, c)
exchanged codec r s (ok u, c) = replied r s (receive codec c)

-- The tests of `request` on what the bridge advertised.
abbrev pub check_capability : Option BridgeCapability → Result (Unit {0})
check_capability none = err bridge_protocol
check_capability (some c) =
    if c.state == "permission_required"
    then err (bridge_remote "permission_required")
    else if not (is_available c)
    then err (bridge_remote "capability_unavailable")
    else ok tt

-- All that is tested before anything is sent.
unfoldable pub check_request : Request → BridgeSession → Result (Unit {0})
unfolding is_method
check_request r s =
    if r.operation_id == ""
    then err value_error
    else if not (is_method r.method)
    then err value_error
    else if not_positive r.deadline_after_ms
    then err value_error
    else check_capability (capability r.method s)

abbrev pub request_checked :
    Result (Unit {0})
    → Codec
    → Option ℕ
    → Request
    → BridgeSession
    → DesktopBridgeClient
    → Result BridgeResponse × DesktopBridgeClient
request_checked (err x) codec failing r s c = (err x, c)
request_checked (ok u) codec failing r s c =
    exchanged codec r s (send codec (message_of r s) failing c)

abbrev pub request_with :
    Option Socket
    → Option BridgeSession
    → Codec
    → Option ℕ
    → Request
    → DesktopBridgeClient
    → Result BridgeResponse × DesktopBridgeClient
request_with none session codec failing r c = (err bridge_unavailable, c)
request_with (some k) none codec failing r c = (err bridge_unavailable, c)
request_with (some k) (some s) codec failing r c =
    request_checked (check_request r s) codec failing r s c

unfoldable pub request :
    Codec → Option ℕ → Request → DesktopBridgeClient → Result BridgeResponse × DesktopBridgeClient
unfolding check_request send receive
request codec failing r c = request_with c.socket c.session codec failing r c

-- What stands at a path.
pub data Node : Type 0 where
  missing regular : Node
  socket_node : Bool → Node

-- The node of a socket says whether a connection to it is accepted.
unfoldable pub probe_socket : Node → Bool
probe_socket (socket_node alive) = alive
probe_socket _ = false

-- The result, and what stands at the path after the call.
unfoldable pub cleanup_stale_socket : Node → Result Bool × Node
unfolding probe_socket
cleanup_stale_socket missing = (ok false, missing)
cleanup_stale_socket regular = (err bridge_protocol, regular)
cleanup_stale_socket (socket_node alive) =
    if probe_socket (socket_node alive) then (ok false, socket_node alive) else (ok true, missing)
