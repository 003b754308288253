-- ===== src/Context/Ranked.antt =====
-- The order in which `ReferentStack.resolve` (liandanlu_native/context.py) looks at the referents.
use codex_test.Prelude.{
  ◌≡◌, ◌≢◌, refl, sym, ap, ◌∙◌, String, true, false, List, [], ◌∷◌, arith, inl, inr, ◌⊎◌, ◌||◌,
  ◌==◌, eq_iff, Bool-cases, All,
}
use codex_test.Prelude.Int.{ℤ, ltb_ℤ}
use codex_test.Context.Bounds.{mentions, IsDistinct}
use codex_test.Context.{Referent, place_referent, ranked}

ltb_ℤ_asym : (a b : ℤ) → ltb_ℤ a b ≡ true → ltb_ℤ b a ≡ false
ltb_ℤ_asym a b h = ground (arith, h)

leb_ℤ_trans : (a b c : ℤ) → ltb_ℤ a b ≡ false → ltb_ℤ b c ≡ false → ltb_ℤ a c ≡ false
leb_ℤ_trans a b c h k = ground (arith, h, k)

-- The referent is one of the list.
abbrev pub Among : Referent → List Referent → Type 0
Among x [] = ⊥
Among x (y ∷ ys) = (x ≡ y) ⊎ Among x ys

abbrev pub Below : Referent → List Referent → Type 0
Below x = All (λ y. ltb_ℤ x.score y.score ≡ false)

abbrev pub Descending : List Referent → Type 0
Descending [] = Unit
Descending (x ∷ xs) = Below x xs × Descending xs

place-All :
    (P : Referent → Type 0) (x : Referent) (ys : List Referent)
    → P x
    → All P ys
    → All P (place_referent x ys)
unfolding place_referent
place-All P x [] h hs = (h, hs)
place-All P x (y ∷ ys) h hs = elim (Bool-cases (ltb_ℤ x.score y.score)) [
  | inl lower ↦ rw lower (hs.0, place-All P x ys h hs.1)
  | inr other ↦ rw other (h, hs)
]

All-place :
    (P : Referent → Type 0) (x : Referent) (ys : List Referent)
    → All P (place_referent x ys)
    → P x × All P ys
unfolding place_referent
All-place P x [] hs = hs
All-place P x (y ∷ ys) hs = elim (Bool-cases (ltb_ℤ x.score y.score)) [
  | inl lower ↦
      let g : P y × All P (place_referent x ys) = rw lower at hs in
      let r = All-place P x ys g.1 in (r.0, (g.0, r.1))
  | inr other ↦ rw other at hs
]

pub All-ranked : (P : Referent → Type 0) (xs : List Referent) → All P (ranked xs) → All P xs
unfolding ranked
All-ranked P [] h = h
All-ranked P (x ∷ xs) h = let r = All-place P x (ranked xs) h in (r.0, All-ranked P xs r.1)

Below-trans :
    (x y : Referent) (ys : List Referent) → ltb_ℤ x.score y.score ≡ false → Below y ys → Below x ys
Below-trans x y [] h hs = tt
Below-trans x y (z ∷ zs) h hs =
    (leb_ℤ_trans x.score y.score z.score h hs.0, Below-trans x y zs h hs.1)

place-Descending :
    (x : Referent) (ys : List Referent) → Descending ys → Descending (place_referent x ys)
unfolding place_referent
place-Descending x [] h = (tt, tt)
place-Descending x (y ∷ ys) h = elim (Bool-cases (ltb_ℤ x.score y.score)) [
  | inl lower ↦ rw lower (
    place-All (λ z. ltb_ℤ y.score z.score ≡ false) x ys (ltb_ℤ_asym x.score y.score lower) h.0,
    place-Descending x ys h.1,
  )
  | inr other ↦ rw other ((other, Below-trans x y ys other h.0), h)
]

pub ranked-Descending : (xs : List Referent) → Descending (ranked xs)
unfolding ranked
ranked-Descending [] = tt
ranked-Descending (x ∷ xs) = place-Descending x (ranked xs) (ranked-Descending xs)

place-Among :
    (z x : Referent) (ys : List Referent) → Among z (place_referent x ys) → Among z (x ∷ ys)
unfolding place_referent
place-Among z x [] h = h
place-Among z x (y ∷ ys) h = elim (Bool-cases (ltb_ℤ x.score y.score)) [
  | inl lower ↦
      let g : (z ≡ y) ⊎ Among z (place_referent x ys) = rw lower at h in
      elim g [
        | inl e ↦ inr (inl e)
        | inr later ↦ elim (place-Among z x ys later) [ inl e ↦ inl e | inr l ↦ inr (inr l) ]
      ]
  | inr other ↦ rw other at h
]

pub ranked-Among : (z : Referent) (xs : List Referent) → Among z (ranked xs) → Among z xs
unfolding ranked
ranked-Among z [] h = h
ranked-Among z (x ∷ xs) h = elim (place-Among z x (ranked xs) h) [
  | inl e ↦ inl e
  | inr later ↦ inr (ranked-Among z xs later)
]

pub All-of_ranked : (P : Referent → Type 0) (xs : List Referent) → All P xs → All P (ranked xs)
unfolding ranked
All-of_ranked P [] h = h
All-of_ranked P (x ∷ xs) h = place-All P x (ranked xs) h.0 (All-of_ranked P xs h.1)

Among-place :
    (z x : Referent) (ys : List Referent) → Among z (x ∷ ys) → Among z (place_referent x ys)
unfolding place_referent
Among-place z x [] h = h
Among-place z x (y ∷ ys) h = elim (Bool-cases (ltb_ℤ x.score y.score)) [
  | inl lower ↦ rw lower (elim h [
    | inl e ↦ inr (Among-place z x ys (inl e))
    | inr later ↦ elim later [ inl e ↦ inl e | inr l ↦ inr (Among-place z x ys (inr l)) ]
  ])
  | inr other ↦ rw other h
]

pub Among-ranked : (z : Referent) (xs : List Referent) → Among z xs → Among z (ranked xs)
unfolding ranked
Among-ranked z [] h = h
Among-ranked z (x ∷ xs) h =
    Among-place z x (ranked xs)
      (elim h [ inl e ↦ inl e | inr later ↦ inr (Among-ranked z xs later) ])

mentions-place :
    (j : String) (x : Referent) (ys : List Referent)
    → mentions j (place_referent x ys) ≡ (x.object_ref == j || mentions j ys)
unfolding place_referent
mentions-place j x [] = refl
mentions-place j x (y ∷ ys) = ground (arith, mentions-place j x ys)

mentions-ranked : (j : String) (xs : List Referent) → mentions j (ranked xs) ≡ mentions j xs
unfolding ranked
mentions-ranked j [] = refl
mentions-ranked j (x ∷ xs) =
    mentions-place j x (ranked xs) ∙ ap (λ b. x.object_ref == j || b) (mentions-ranked j xs)

place-IsDistinct :
    (x : Referent) (ys : List Referent)
    → mentions x.object_ref ys ≡ false
    → IsDistinct ys
    → IsDistinct (place_referent x ys)
unfolding place_referent
place-IsDistinct x [] h d = (refl, tt)
place-IsDistinct x (y ∷ ys) h d = elim (Bool-cases (ltb_ℤ x.score y.score)) [
  | inl lower ↦ rw lower (
    ground (
      arith,
      h,
      d.0,
      mentions-place y.object_ref x ys,
      eq_iff x.object_ref y.object_ref,
      eq_iff y.object_ref x.object_ref,
    ),
    place-IsDistinct x ys (ground (arith, h)) d.1,
  )
  | inr other ↦ rw other (h, d)
]

pub ranked-IsDistinct : (xs : List Referent) → IsDistinct xs → IsDistinct (ranked xs)
unfolding ranked
ranked-IsDistinct [] d = tt
ranked-IsDistinct (x ∷ xs) d =
    place-IsDistinct x (ranked xs) (mentions-ranked x.object_ref xs ∙ d.0)
      (ranked-IsDistinct xs d.1)

pub Below-Among :
    (first x : Referent) (ys : List Referent)
    → Below first ys
    → Among x ys
    → ltb_ℤ first.score x.score ≡ false
Below-Among first x [] h a = elim a [ ]
Below-Among first x (y ∷ ys) h a = elim a [
  | inl e ↦ ap (λ (z : Referent). ltb_ℤ first.score z.score) e ∙ h.0
  | inr later ↦ Below-Among first x ys h.1 later
]

pub unmentioned :
    (ref : String) (x : Referent) (ys : List Referent)
    → mentions ref ys ≡ false
    → Among x ys
    → ref ≢ x.object_ref
unmentioned ref x [] h a e = elim a [ ]
unmentioned ref x (y ∷ ys) h a e = elim a [
  | inl same ↦
      ground
        (arith, h, (eq_iff y.object_ref ref).1 (sym (e ∙ ap (λ (z : Referent). z.object_ref) same)))
  | inr later ↦ unmentioned ref x ys (ground (arith, h)) later e
]
