-- ===== src/Bridge/Limits.antt =====
-- How much `FrameCodec.recv` (liandanlu_native/desktop_bridge.py) reads, and what it lets through.
use codex_test.Prelude.{
  ℕ, ◌+◌, ◌≤◌, ◌<◌, ◌≡◌, refl, sym, ap, ◌∙◌, true, List, ◌++◌, inl, inr, ◌⊎◌, arith, ltb, nat_eq,
  length, length-append, Bool-cases, Result, ok, err, bridge_protocol, decode_error, ◌||◌,
}
use codex_test.Prelude.Json.{Value, object, Fields}
use codex_test.Bridge.Frames.{
  Arrival, Codec, unpack, recv_exact, decoded, recv_payload, recv_body, recv_header, recv,
}
use codex_test.Bridge.Stream.{ready, Taken, recv_exact-Taken}

payload_bounds :
    (codec : Codec) (n max : ℕ) (arrivals : List Arrival) (p : Result (List ℕ) × List Arrival)
    → n ≤ max
    → Taken n arrivals p
    → length (ready arrivals) ≤ max + length (ready (recv_payload codec p).1)
payload_bounds codec n max arrivals (err x, rest) h (inl (bytes, got, long, split)) = cc
payload_bounds codec n max arrivals (ok got, rest) h (inl (bytes, same, long, split)) =
    omega (arith, h, long, ap length split, length-append bytes (ready rest))
payload_bounds codec n max arrivals (err x, rest) h (inr (a, short)) = omega (arith, h, short)
payload_bounds codec n max arrivals (ok got, rest) h (inr (a, short)) = omega (arith, h, short)

body_bounds :
    (codec : Codec) (n : Result ℕ) (max : ℕ) (arrivals : List Arrival)
    → length (ready arrivals) ≤ max + length (ready (recv_body codec n max arrivals).1)
body_bounds codec (err x) max arrivals = omega arith
body_bounds codec (ok n) max arrivals = elim (Bool-cases (nat_eq n 0 || ltb max n)) [
  | inl bad ↦ rw bad (omega arith)
  | inr good ↦
      rw good
        (payload_bounds codec n max arrivals _ (ground (arith, good)) (recv_exact-Taken n arrivals))
]

header_bounds :
    (codec : Codec) (max : ℕ) (arrivals : List Arrival) (p : Result (List ℕ) × List Arrival)
    → Taken 4 arrivals p
    → length (ready arrivals) ≤ 4 + max + length (ready (recv_header codec max p).1)
header_bounds codec max arrivals (err x, rest) (inl (bytes, got, long, split)) = cc
header_bounds codec max arrivals (ok header, rest) (inl (bytes, same, long, split)) = omega (
  arith,
  long,
  ap length split,
  length-append bytes (ready rest),
  body_bounds codec (unpack header) max rest,
)
header_bounds codec max arrivals (err x, rest) (inr (a, short)) = omega (arith, short)
header_bounds codec max arrivals (ok header, rest) (inr (a, short)) = cc

-- The refusal of a frame that is announced as too long, or empty.
body_refused :
    (codec : Codec) (n max : ℕ) (arrivals : List Arrival)
    → (nat_eq n 0 || ltb max n) ≡ true
    → recv_body codec (ok n) max arrivals ≡ (err bridge_protocol, arrivals)
body_refused codec n max arrivals h = rw h

-- Of the bytes that are ready, `recv` takes a header and at most `max` bytes, whatever the peer sends;
-- a header that announces a frame of no byte or of more than `max` is all that is read of it.
pub recv_bounds :
    (codec : Codec) (max : ℕ) (arrivals : List Arrival)
    → (length (ready arrivals) ≤ 4 + max + length (ready (recv codec max arrivals).1))
      × ((header : List ℕ) (rest : List Arrival) (n : ℕ)
          → recv_exact 4 arrivals ≡ (ok header, rest)
          → unpack header ≡ ok n
          → (n ≡ 0) ⊎ (max < n)
          → recv codec max arrivals ≡ (err bridge_protocol, rest))
unfolding recv
recv_bounds codec max arrivals = (
  header_bounds codec max arrivals (recv_exact 4 arrivals) (recv_exact-Taken 4 arrivals),
  λ header rest n e u bad. rw (e, u) (body_refused codec n max rest (is_bad n bad)),
)
  where
    is_bad : (n : ℕ) → (n ≡ 0) ⊎ (max < n) → (nat_eq n 0 || ltb max n) ≡ true
    is_bad n (inl z) = ground (arith, z)
    is_bad n (inr l) = ground (arith, l)

-- What stands in front of a message that was received.
pub record Received (codec : Codec) (max : ℕ) (m : Fields) (before after : List ℕ) : Type 0 where
  pub header : List ℕ
  pub payload : List ℕ
  pub split : before ≡ header ++ (payload ++ after)
  pub four : length header ≡ 4
  pub announced : unpack header ≡ ok (length payload)
  pub some_bytes : 1 ≤ length payload
  pub bounded : length payload ≤ max
  pub loaded : codec.loads payload ≡ ok (object m)

decoded_ok : (r : Result Value) (m : Fields) → decoded r ≡ ok m → r ≡ ok (object m)
decoded_ok (err decode_error) m h = cc
decoded_ok (err x) m h = ground (arith, h)
decoded_ok (ok (object fields)) m h = ground (arith, h)
decoded_ok (ok v) m h = ground (arith, h)

payload_Received :
    (codec : Codec) (n max : ℕ) (header before : List ℕ) (arrivals : List Arrival) (m : Fields)
    (p : Result (List ℕ) × List Arrival)
    → before ≡ header ++ ready arrivals
    → length header ≡ 4
    → unpack header ≡ ok n
    → 1 ≤ n
    → n ≤ max
    → Taken n arrivals p
    → (recv_payload codec p).0 ≡ ok m
    → Received codec max m before (ready (recv_payload codec p).1)
payload_Received codec n max header before arrivals m (err x, rest) a b c d e t h = cc
payload_Received codec n max header before arrivals m (ok payload, rest) a b c d e t h = elim t [
  | inl (bytes, got, long, split) ↦
      let same : payload ≡ bytes = ground (arith, got) in
      record {
        header = header;
        payload = payload;
        split = a ∙ ap (λ x. header ++ x) (split ∙ ap (λ x. x ++ ready rest) (sym same));
        four = b;
        announced = c ∙ ap ok (sym long ∙ ap length (sym same));
        some_bytes = omega (arith, d, long, ap length same);
        bounded = omega (arith, e, long, ap length same);
        loaded = decoded_ok (codec.loads payload) m h;
      }
  | inr (x, short) ↦ cc
]

body_Received :
    (codec : Codec) (n : Result ℕ) (max : ℕ) (header before : List ℕ) (arrivals : List Arrival)
    (m : Fields)
    → before ≡ header ++ ready arrivals
    → length header ≡ 4
    → unpack header ≡ n
    → (recv_body codec n max arrivals).0 ≡ ok m
    → Received codec max m before (ready (recv_body codec n max arrivals).1)
body_Received codec (err x) max header before arrivals m a b c h = cc
body_Received codec (ok n) max header before arrivals m a b c h =
    elim (Bool-cases (nat_eq n 0 || ltb max n)) [
      | inl bad ↦ ground (arith, bad, h)
      | inr good ↦ rw good (
          payload_Received codec n max header before arrivals m (recv_exact n arrivals) a b c
            (ground (arith, good)) (ground (arith, good)) (recv_exact-Taken n arrivals)
            (rw good at h))
    ]

header_Received :
    (codec : Codec) (max : ℕ) (arrivals : List Arrival) (m : Fields)
    (p : Result (List ℕ) × List Arrival)
    → Taken 4 arrivals p
    → (recv_header codec max p).0 ≡ ok m
    → Received codec max m (ready arrivals) (ready (recv_header codec max p).1)
header_Received codec max arrivals m (err x, rest) t h = cc
header_Received codec max arrivals m (ok header, rest) (inr (x, short)) h = cc
header_Received codec max arrivals m (ok header, rest) (inl (bytes, got, long, split)) h =
    let same : header ≡ bytes = ground (arith, got) in
    body_Received codec (unpack header) max header (ready arrivals) rest m
      (split ∙ ap (λ x. x ++ ready rest) (sym same)) (ap length same ∙ long) refl h

-- A message that is received was announced by four bytes with its length, which is not 0 and at most
-- `max`, and its bytes read back to it; the bytes after it stay.
pub recv-Received :
    (codec : Codec) (max : ℕ) (arrivals : List Arrival) (m : Fields)
    → (recv codec max arrivals).0 ≡ ok m
    → Received codec max m (ready arrivals) (ready (recv codec max arrivals).1)
unfolding recv
recv-Received codec max arrivals m h =
    header_Received codec max arrivals m (recv_exact 4 arrivals) (recv_exact-Taken 4 arrivals) h
