-- ===== src/Bridge/Frames.antt =====
-- `FrameCodec` of liandanlu_native/desktop_bridge.py. A byte is a number below 256. What arrives on a
-- socket is a list of chunks that are not empty, of timeouts and of failures; where the list ends, the
-- peer has closed the connection. `json.dumps` with the encoding to UTF-8 and the decoding with
-- `json.loads` are arguments.
use codex_test.Prelude.{
  ℕ, zero, suc, ◌+◌, ◌-◌, ◌*◌, ◌/◌, ◌%◌, ◌^◌, List, [], ◌∷◌, ◌++◌, ltb, leb, length, take, drop,
  is_nil, nat_eq, ◌||◌, if◌then◌else◌, Result, ok, err, struct_error, decode_error, type_error,
  value_error, bridge_transport, bridge_protocol,
}
use codex_test.Prelude.Json.{Value, object, Fields}

pub data Arrival : Type 0 where
  chunk : ℕ → List ℕ → Arrival
  timed_out failed : Arrival

-- The standard library's `json` and UTF-8.
pub record Codec : Type 0 where
  pub dumps : Fields → Result (List ℕ)
  pub loads : List ℕ → Result Value

-- `struct.pack("!I", n)`
unfoldable pub pack : ℕ → Result (List ℕ)
pack n =
    if ltb n (2 ^ 32)
    then ok (n / 2 ^ 24 ∷ n / 2 ^ 16 % 256 ∷ n / 2 ^ 8 % 256 ∷ n % 256 ∷ [])
    else err struct_error

-- `struct.unpack("!I", header)`
unfoldable pub unpack : List ℕ → Result ℕ
unpack (a ∷ b ∷ c ∷ d ∷ []) = ok (a * 2 ^ 24 + b * 2 ^ 16 + c * 2 ^ 8 + d)
unpack _ = err struct_error

abbrev pub framed : Result (List ℕ) → List ℕ → Result (List ℕ)
framed (err x) payload = err x
framed (ok header) payload = ok (header ++ payload)

-- `except (TypeError, ValueError)`
abbrev pub encoded : Result (List ℕ) → ℕ → Result (List ℕ)
encoded (err type_error) max_frame_bytes = err bridge_protocol
encoded (err value_error) max_frame_bytes = err bridge_protocol
encoded (err x) max_frame_bytes = err x
encoded (ok payload) max_frame_bytes =
    if is_nil payload || ltb max_frame_bytes (length payload)
    then err bridge_protocol
    else framed (pack (length payload)) payload

abbrev pub object_of : Value → Result Fields
object_of (object fields) = ok fields
object_of _ = err bridge_protocol

abbrev pub encode_fields : Codec → Result Fields → ℕ → Result (List ℕ)
encode_fields codec (err x) max_frame_bytes = err x
encode_fields codec (ok fields) max_frame_bytes = encoded (codec.dumps fields) max_frame_bytes

unfoldable pub encode : Codec → Value → ℕ → Result (List ℕ)
unfolding pack
encode codec message max_frame_bytes = encode_fields codec (object_of message) max_frame_bytes

-- What is left of a chunk stays in front.
abbrev pub put_back : List ℕ → List Arrival → List Arrival
put_back [] arrivals = arrivals
put_back (b ∷ bs) arrivals = chunk b bs ∷ arrivals

abbrev pub joined : List ℕ → Result (List ℕ) × List Arrival → Result (List ℕ) × List Arrival
joined bytes (err x, rest) = (err x, rest)
joined bytes (ok more, rest) = (ok (bytes ++ more), rest)

-- `sock.recv(remaining)` gives the next chunk, or as much of it as is asked for.
unfoldable pub recv_exact : ℕ → List Arrival → Result (List ℕ) × List Arrival
recv_exact zero arrivals = (ok [], arrivals)
recv_exact (suc n) [] = (err bridge_transport, [])
recv_exact (suc n) (timed_out ∷ arrivals) = (err bridge_transport, arrivals)
recv_exact (suc n) (failed ∷ arrivals) = (err bridge_transport, arrivals)
recv_exact (suc n) (chunk b bs ∷ arrivals) =
    let rest = joined (b ∷ bs) (recv_exact (n - length bs) arrivals) in
    if leb (length bs) n
    then rest
    else (ok (take (suc n) (b ∷ bs)), put_back (drop (suc n) (b ∷ bs)) arrivals)

-- `except (UnicodeDecodeError, json.JSONDecodeError)`
abbrev pub decoded : Result Value → Result Fields
decoded (err decode_error) = err bridge_protocol
decoded (err x) = err x
decoded (ok v) = object_of v

abbrev pub recv_payload : Codec → Result (List ℕ) × List Arrival → Result Fields × List Arrival
recv_payload codec (err x, rest) = (err x, rest)
recv_payload codec (ok payload, rest) = (decoded (codec.loads payload), rest)

abbrev pub recv_body : Codec → Result ℕ → ℕ → List Arrival → Result Fields × List Arrival
recv_body codec (err x) max_frame_bytes arrivals = (err x, arrivals)
recv_body codec (ok n) max_frame_bytes arrivals =
    if nat_eq n 0 || ltb max_frame_bytes n
    then (err bridge_protocol, arrivals)
    else recv_payload codec (recv_exact n arrivals)

abbrev pub recv_header : Codec → ℕ → Result (List ℕ) × List Arrival → Result Fields × List Arrival
recv_header codec max_frame_bytes (err x, rest) = (err x, rest)
recv_header codec max_frame_bytes (ok header, rest) =
    recv_body codec (unpack header) max_frame_bytes rest

unfoldable pub recv : Codec → ℕ → List Arrival → Result Fields × List Arrival
unfolding recv_exact unpack
recv codec max_frame_bytes arrivals = recv_header codec max_frame_bytes (recv_exact 4 arrivals)
