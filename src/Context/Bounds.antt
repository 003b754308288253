-- ===== src/Context/Bounds.antt =====
-- The referents that liandanlu_native/context.py keeps, and when one is meant.
use codex_test.Prelude.{
  ℕ, zero, suc, ◌≤◌, ◌≡◌, refl, String, Bool, false, not, List, [], ◌∷◌, ◌==◌, arith, inl, inr,
  Bool-cases, select, take, length, some_of,
}
use codex_test.Prelude.Int.{ℤ}
use codex_test.Context.{Referent, ReferentStack, push}

abbrev pub mentions : String → List Referent → Bool
mentions ref = some_of (λ x. x.object_ref == ref)

abbrev pub IsDistinct : List Referent → Type 0
IsDistinct [] = Unit {0}
IsDistinct (x ∷ xs) = (mentions x.object_ref xs ≡ false) × IsDistinct xs

-- At most 32 referents, no object twice.
pub record IsStack (items : ReferentStack) : Type 0 where
  pub bounded : length items ≤ 32
  pub distinct : IsDistinct items

abbrev others : String → List Referent → List Referent
others ref = select (λ x. not (x.object_ref == ref))

mentions-others :
    (j ref : String) (xs : List Referent)
    → mentions j xs ≡ false
    → mentions j (others ref xs) ≡ false
mentions-others j ref [] h = refl
mentions-others j ref (x ∷ xs) h = ground (arith, h, mentions-others j ref xs)

mentions-others_self : (ref : String) (xs : List Referent) → mentions ref (others ref xs) ≡ false
mentions-others_self ref [] = refl
mentions-others_self ref (x ∷ xs) = ground (arith, mentions-others_self ref xs)

others-IsDistinct : (ref : String) (xs : List Referent) → IsDistinct xs → IsDistinct (others ref xs)
others-IsDistinct ref [] h = tt
others-IsDistinct ref (x ∷ xs) h = elim (Bool-cases (x.object_ref == ref)) [
  | inl same ↦ rw same (others-IsDistinct ref xs h.1)
  | inr other ↦ rw other (mentions-others x.object_ref ref xs h.0, others-IsDistinct ref xs h.1)
]

mentions-take :
    (j : String) (n : ℕ) (xs : List Referent)
    → mentions j xs ≡ false
    → mentions j (take n xs) ≡ false
mentions-take j zero xs h = refl
mentions-take j (suc n) [] h = refl
mentions-take j (suc n) (x ∷ xs) h = ground (arith, h, mentions-take j n xs)

take-IsDistinct : (n : ℕ) (xs : List Referent) → IsDistinct xs → IsDistinct (take n xs)
take-IsDistinct zero xs h = tt
take-IsDistinct (suc n) [] h = tt
take-IsDistinct (suc n) (x ∷ xs) h = (mentions-take x.object_ref n xs h.0, take-IsDistinct n xs h.1)

length-take-le : (n : ℕ) (xs : List Referent) → length (take n xs) ≤ n
length-take-le zero xs = omega arith
length-take-le (suc n) [] = omega arith
length-take-le (suc n) (x ∷ xs) = omega (arith, length-take-le n xs)

-- A push keeps at most 32 referents, none of them twice.
pub push-IsStack :
    (ref source : String) (score : ℤ) (items : ReferentStack)
    → IsStack items
    → IsStack (push ref source score items)
unfolding push
push-IsStack ref source score items h =
    let x : Referent = record { object_ref = ref; source = source; score = score } in
    record {
      bounded = length-take-le 32 (x ∷ others ref items);
      distinct =
          take-IsDistinct 32 (x ∷ others ref items)
            (mentions-others_self ref items, others-IsDistinct ref items h.distinct);
    }
