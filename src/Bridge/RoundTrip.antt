-- ===== src/Bridge/RoundTrip.antt =====
-- Frames over a stream: `FrameCodec.encode` and `FrameCodec.recv` (liandanlu_native/desktop_bridge.py).
use codex_test.Prelude.{
  ℕ, ◌+◌, ◌*◌, ◌/◌, ◌%◌, ◌^◌, ◌≤◌, ◌<◌, ◌≡◌, refl, sym, ap, ◌∙◌, false, List, [], ◌∷◌, ◌++◌, inl,
  inr, arith, ltb, nat_eq, is_nil, length, length-append, Bool-cases, Error, Result, ok, err,
  type_error, value_error, ◌||◌,
}
use mathlib.Core.List.{append_assoc}
use codex_test.Prelude.Json.{object, Fields}
use codex_test.Bridge.Frames.{
  Arrival, Codec, pack, unpack, encode, encoded, framed, recv_exact, recv_payload, recv_body,
  recv_header, recv,
}
use codex_test.Bridge.Stream.{ready, recv_exact-Taken, append_split}

-- A length that fits in four bytes is read back.
unpack-pack :
    (n : ℕ) (header : List ℕ) → pack n ≡ ok header → (unpack header ≡ ok n) × (length header ≡ 4)
unfolding pack unpack
unpack-pack n header h = elim (Bool-cases (ltb n (2 ^ 32))) [
  | inl fits ↦ ground (arith, fits, h, digits n (ground (arith, fits)))
  | inr wide ↦ ground (arith, wide, h)
]
  where
    digits :
        (n : ℕ)
        → n < 2 ^ 32
        → n / 2 ^ 24 * 2 ^ 24 + n / 2 ^ 16 % 256 * 2 ^ 16 + n / 2 ^ 8 % 256 * 2 ^ 8 + n % 256 ≡ n
    digits n h = omega arith

-- What an encoded frame is made of.
record Framed (codec : Codec) (m : Fields) (max : ℕ) (frame : List ℕ) : Type 0 where
  payload : List ℕ
  header : List ℕ
  dumped : codec.dumps m ≡ ok payload
  packed : pack (length payload) ≡ ok header
  some_bytes : is_nil payload ≡ false
  bounded : length payload ≤ max
  parts : frame ≡ header ++ payload

framed-Framed :
    (codec : Codec) (m : Fields) (max : ℕ) (payload frame : List ℕ) (r : Result (List ℕ))
    → codec.dumps m ≡ ok payload
    → pack (length payload) ≡ r
    → (is_nil payload || ltb max (length payload)) ≡ false
    → framed r payload ≡ ok frame
    → Framed codec m max frame
framed-Framed codec m max payload frame (err x) d e g h = cc
framed-Framed codec m max payload frame (ok header) d e g h = record {
  payload = payload;
  header = header;
  dumped = d;
  packed = e;
  some_bytes = ground (arith, g);
  bounded = ground (arith, g);
  parts = ground (arith, h);
}

encoded_err : (x : Error) (max : ℕ) (frame : List ℕ) → encoded (err x) max ≡ ok frame → ⊥
encoded_err type_error max frame h = cc
encoded_err value_error max frame h = cc
encoded_err x max frame h = cc

encode-Framed :
    (codec : Codec) (m : Fields) (max : ℕ) (frame : List ℕ)
    → encode codec (object m) max ≡ ok frame
    → Framed codec m max frame
unfolding encode
encode-Framed codec m max frame h = encoded-Framed (codec.dumps m) refl h
  where
    encoded-Framed :
        (r : Result (List ℕ))
        → codec.dumps m ≡ r
        → encoded r max ≡ ok frame
        → Framed codec m max frame
    encoded-Framed (err x) e h = absurd (encoded_err x max frame h)
    encoded-Framed (ok payload) e h =
        elim (Bool-cases (is_nil payload || ltb max (length payload))) [
          | inl bad ↦ ground (arith, bad, h)
          | inr good ↦
              framed-Framed codec m max payload frame (pack (length payload)) e refl good
                (ground (arith, good, h))
        ]

is_admitted :
    (payload : List ℕ) (n max : ℕ)
    → n ≡ length payload
    → is_nil payload ≡ false
    → length payload ≤ max
    → (nat_eq n 0 || ltb max n) ≡ false
is_admitted [] n max e h k = cc
is_admitted (b ∷ bs) n max e h k = ground (arith, e, k)

-- What follows the header of a frame that may be read.
recv_body_ok :
    (codec : Codec) (n max : ℕ) (arrivals : List Arrival) (payload more : List ℕ) (m : Fields)
    → n ≡ length payload
    → is_nil payload ≡ false
    → length payload ≤ max
    → ready arrivals ≡ payload ++ more
    → codec.loads payload ≡ ok (object m)
    → ((recv_body codec (ok n) max arrivals).0 ≡ ok m)
      × (ready (recv_body codec (ok n) max arrivals).1 ≡ more)
recv_body_ok codec n max arrivals payload more m e some_bytes bound r l =
    rw (is_admitted payload n max e some_bytes bound) (elim (recv_exact-Taken n arrivals) [
      | inl (bytes, got, long, split) ↦
          let (same, rest) =
            append_split bytes payload (ready (recv_exact n arrivals).1) more (long ∙ e)
              (sym split ∙ r) in
          received (recv_exact n arrivals) (got ∙ ap ok same) rest
      | inr (x, short) ↦ absurd (omega (arith, short, e, ap length r, length-append payload more))
    ])
  where
    received :
        (p : Result (List ℕ) × List Arrival)
        → p.0 ≡ ok payload
        → ready p.1 ≡ more
        → ((recv_payload codec p).0 ≡ ok m) × (ready (recv_payload codec p).1 ≡ more)
    received (err x, rest) h k = cc
    received (ok bytes, rest) h k = ground (arith, h, k, l)

-- A frame that was encoded is received as what its payload reads back to, however its bytes are cut
-- into chunks, and the bytes after it are left for the next frame.
pub recv-encode :
    (codec : Codec) (m m' : Fields) (max : ℕ) (frame payload more : List ℕ)
    (arrivals : List Arrival)
    → encode codec (object m) max ≡ ok frame
    → codec.dumps m ≡ ok payload
    → codec.loads payload ≡ ok (object m')
    → ready arrivals ≡ frame ++ more
    → ((recv codec max arrivals).0 ≡ ok m') × (ready (recv codec max arrivals).1 ≡ more)
unfolding recv
recv-encode codec m m' max frame payload more arrivals h d l r =
    let f : Framed codec m max frame = encode-Framed codec m max frame h in
    let same : f.payload ≡ payload = ground (arith, f.dumped, d) in
    let (unpacked, four) = unpack-pack (length f.payload) f.header f.packed in
    let whole : ready arrivals ≡ f.header ++ (payload ++ more) =
      r
      ∙ ap (λ x. x ++ more) (f.parts ∙ ap (λ x. f.header ++ x) same)
      ∙ append_assoc f.header payload more in
    elim (recv_exact-Taken 4 arrivals) [
      | inl (bytes, got, long, split) ↦
          let (header, rest) =
            append_split bytes f.header (ready (recv_exact 4 arrivals).1) (payload ++ more)
              (long ∙ sym four) (sym split ∙ whole) in
          started (recv_exact 4 arrivals) f.header (length f.payload) (got ∙ ap ok header) unpacked
            (ap length same) (rw same at f.some_bytes) (omega (arith, f.bounded, ap length same))
            rest
      | inr (x, short) ↦
          absurd
            (omega (arith, short, ap length whole, four, length-append f.header (payload ++ more)))
    ]
  where
    started :
        (p : Result (List ℕ) × List Arrival) (header : List ℕ) (n : ℕ)
        → p.0 ≡ ok header
        → unpack header ≡ ok n
        → n ≡ length payload
        → is_nil payload ≡ false
        → length payload ≤ max
        → ready p.1 ≡ payload ++ more
        → ((recv_header codec max p).0 ≡ ok m') × (ready (recv_header codec max p).1 ≡ more)
    started (err x, rest) header n a b c e g k = cc
    started (ok bytes, rest) header n a b c e g k =
        let u : unpack bytes ≡ ok n = ap unpack (ground (arith, a)) ∙ b in
        rw u (recv_body_ok codec n max rest payload more m' c e g k l)
