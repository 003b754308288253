-- ===== src/Prelude/Lists.antt =====
-- Lists measured by native numbers, Python's `in`, and predicates on every item.
use Prim.Native.Nat.{ℕ, zero, suc, ◌+◌}
use Prim.Native.String.{String}
use mathlib.Core.Path.{◌≡◌, refl}
use mathlib.Core.Logic.{◌↔◌}
use mathlib.Core.Bool.{Bool, true, false, ◌&&◌, ◌||◌}
use mathlib.Core.List.{List, [], ◌∷◌, ◌++◌}
use native.Mathlib.Omega.{arith}
use text.Mathlib.Text.{◌==◌}
use codex_test.Prelude.Tests.{if◌then◌else◌}

module _ {ℓ} {A : Type ℓ} where
  abbrev pub length : List A → ℕ
  length [] = 0
  length (x ∷ xs) = suc (length xs)

  abbrev pub take : ℕ → List A → List A
  take zero xs = []
  take (suc n) [] = []
  take (suc n) (x ∷ xs) = x ∷ take n xs

  abbrev pub drop : ℕ → List A → List A
  drop zero xs = xs
  drop (suc n) [] = []
  drop (suc n) (x ∷ xs) = drop n xs

  -- `[x for x in xs if p(x)]`
  abbrev pub select : (A → Bool) → List A → List A
  select p [] = []
  select p (x ∷ xs) = let rest = select p xs in if p x then x ∷ rest else rest

  -- `all(p(x) for x in xs)`
  abbrev pub every : (A → Bool) → List A → Bool
  every p [] = true
  every p (x ∷ xs) = p x && every p xs

  -- `any(p(x) for x in xs)`
  abbrev pub some_of : (A → Bool) → List A → Bool
  some_of p [] = false
  some_of p (x ∷ xs) = p x || some_of p xs

  -- `not xs`
  abbrev pub is_nil : List A → Bool
  is_nil [] = true
  is_nil (x ∷ xs) = false

  pub is_nil_iff : (xs : List A) → (is_nil xs ≡ true) ↔ (xs ≡ [])
  is_nil_iff [] = (λ h. refl, λ h. refl)
  is_nil_iff (x ∷ xs) = (λ h. ground (arith, h), λ h. ground (arith, h))

  pub length-append : (xs ys : List A) → length (xs ++ ys) ≡ length xs + length ys
  length-append [] ys = omega arith
  length-append (x ∷ xs) ys = omega (arith, length-append xs ys)

-- `x in xs`
abbrev pub contains : String → List String → Bool
contains x = some_of (λ y. y == x)

-- A statement of every item.
abbrev pub All {ℓ κ} : {A : Type ℓ} → (A → Type κ) → List A → Type κ
All P [] = Unit
All P (x ∷ xs) = P x × All P xs

pub some_of-append {ℓ} :
    {A : Type ℓ} (p : A → Bool) (xs ys : List A)
    → some_of p (xs ++ ys) ≡ (some_of p xs || some_of p ys)
some_of-append p [] ys = refl
some_of-append p (x ∷ xs) ys = ground (arith, some_of-append p xs ys)

module _ {ℓ} {A : Type ℓ} (p : A → Bool) (x : A) (xs : List A) where
  pub select_pass : p x ≡ true → select p (x ∷ xs) ≡ x ∷ select p xs
  select_pass h = rw h

  pub select_fail : p x ≡ false → select p (x ∷ xs) ≡ select p xs
  select_fail h = rw h

pub length-snoc {ℓ} : {A : Type ℓ} (xs : List A) (x : A) → length (xs ++ x ∷ []) ≡ length xs + 1
length-snoc xs x = omega (arith, length-append xs (x ∷ []))
