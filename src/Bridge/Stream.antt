-- ===== src/Bridge/Stream.antt =====
-- What `FrameCodec._recv_exact` (liandanlu_native/desktop_bridge.py) takes from a socket, however the
-- bytes are cut into chunks.
use codex_test.Prelude.{
  ℕ, zero, suc, ◌-◌, ◌≤◌, ◌<◌, ◌≡◌, refl, sym, ap, ◌∙◌, List, [], ◌∷◌, ◌++◌, inl, inr, ◌⊎◌, arith,
  leb, length, length-append, take, drop, Bool-cases, Result, ok, err, bridge_transport,
}
use mathlib.Core.List.{append_assoc}
use codex_test.Bridge.Frames.{Arrival, chunk, timed_out, failed, put_back, joined, recv_exact}

-- The bytes that arrive before the first timeout, failure or end.
unfoldable pub ready : List Arrival → List ℕ
ready [] = []
ready (chunk b bs ∷ arrivals) = (b ∷ bs) ++ ready arrivals
ready (timed_out ∷ arrivals) = []
ready (failed ∷ arrivals) = []

ready-put_back :
    (bs : List ℕ) (arrivals : List Arrival) → ready (put_back bs arrivals) ≡ bs ++ ready arrivals
unfolding ready
ready-put_back [] arrivals = refl
ready-put_back (b ∷ bs) arrivals = refl

take-drop : (n : ℕ) (xs : List ℕ) → take n xs ++ drop n xs ≡ xs
take-drop zero xs = refl
take-drop (suc n) [] = refl
take-drop (suc n) (x ∷ xs) = ap (λ ys. x ∷ ys) (take-drop n xs)

length-take : (n : ℕ) (xs : List ℕ) → n ≤ length xs → length (take n xs) ≡ n
length-take zero xs h = refl
length-take (suc n) [] h = absurd (omega (arith, h))
length-take (suc n) (x ∷ xs) h = omega (arith, length-take n xs (omega (arith, h)))

-- Either just `n` bytes are taken and those after them stay, or fewer are ready.
abbrev pub Taken : ℕ → List Arrival → Result (List ℕ) × List Arrival → Type 0
Taken n arrivals r =
    ((bytes : List ℕ) × (r.0 ≡ ok bytes)
      × (length bytes ≡ n)
      × (ready arrivals ≡ bytes ++ ready r.1))
    ⊎ ((r.0 ≡ err bridge_transport) × (length (ready arrivals) < n))

joined-Taken :
    (n b : ℕ) (bs : List ℕ) (arrivals : List Arrival) (r : Result (List ℕ) × List Arrival)
    → length bs ≤ n
    → Taken (n - length bs) arrivals r
    → Taken (suc n) (chunk b bs ∷ arrivals) (joined (b ∷ bs) r)
unfolding ready
joined-Taken n b bs arrivals (err x, rest) h (inl (bytes, a, c, d)) = cc
joined-Taken n b bs arrivals (ok more, rest) h (inl (bytes, a, c, d)) =
    let e : more ≡ bytes = ground (arith, a) in
    inl (
      (b ∷ bs) ++ more,
      refl,
      omega (arith, h, c, ap length e, length-append (b ∷ bs) more),
      ap (λ xs. (b ∷ bs) ++ xs) (rw e d) ∙ sym (append_assoc (b ∷ bs) more (ready rest)),
    )
joined-Taken n b bs arrivals (err x, rest) h (inr (a, c)) =
    inr (a, omega (arith, h, c, length-append bs (ready arrivals)))
joined-Taken n b bs arrivals (ok more, rest) h (inr (a, c)) = cc

pub recv_exact-Taken : (n : ℕ) (arrivals : List Arrival) → Taken n arrivals (recv_exact n arrivals)
unfolding ready recv_exact
recv_exact-Taken zero arrivals = inl ([], refl, refl, refl)
recv_exact-Taken (suc n) [] = inr (refl, omega arith)
recv_exact-Taken (suc n) (timed_out ∷ arrivals) = inr (refl, omega arith)
recv_exact-Taken (suc n) (failed ∷ arrivals) = inr (refl, omega arith)
recv_exact-Taken (suc n) (chunk b bs ∷ arrivals) = elim (Bool-cases (leb (length bs) n)) [
  | inl fits ↦ rw fits (
      joined-Taken n b bs arrivals _ (ground (arith, fits))
        (recv_exact-Taken (n - length bs) arrivals))
  | inr cut ↦ rw cut (
      inl (
        take (suc n) (b ∷ bs),
        refl,
        length-take (suc n) (b ∷ bs) (ground (arith, cut)),
        ap (λ xs. xs ++ ready arrivals) (sym (take-drop (suc n) (b ∷ bs)))
            ∙ append_assoc (take (suc n) (b ∷ bs)) (drop (suc n) (b ∷ bs)) (ready arrivals)
            ∙ ap (λ xs. take (suc n) (b ∷ bs) ++ xs)
                (sym (ready-put_back (drop (suc n) (b ∷ bs)) arrivals)),
      ))
]

-- Two ways to cut one list after as many items are the same.
pub append_split :
    (xs ys us vs : List ℕ) → length xs ≡ length ys → xs ++ us ≡ ys ++ vs → (xs ≡ ys) × (us ≡ vs)
append_split [] [] us vs h e = (refl, e)
append_split [] (y ∷ ys) us vs h e = absurd (omega (arith, h))
append_split (x ∷ xs) [] us vs h e = absurd (omega (arith, h))
append_split (x ∷ xs) (y ∷ ys) us vs h e =
    let ih = append_split xs ys us vs (omega (arith, h)) (cc) in (ground (arith, e, ih), ih.1)
