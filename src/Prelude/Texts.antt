-- ===== src/Prelude/Texts.antt =====
-- The order of texts by code points, which is Python's on `str` and SQLite's on TEXT.
use Prim.Native.String.{String, [], ◌∷◌, compare}
use Prim.Native.String.compare
use mathlib.Core.Path.{◌≡◌, ap}
use mathlib.Core.Bool.{Bool, true, false}
use native.Mathlib.Omega.{arith}
use text.Mathlib.Text.{is_lt}
use text.Mathlib.TextPositions.{compare_refl}

unfoldable pub text_lt : String → String → Bool
text_lt s t = is_lt (compare s t)

pub text_lt_trans : (s t u : String) → text_lt s t ≡ true → text_lt t u ≡ true → text_lt s u ≡ true
unfolding text_lt
text_lt_trans [] [] u h k = k
text_lt_trans [] (d ∷ t) [] h k = cc (compare.cons-nil d t)
text_lt_trans [] (d ∷ t) (e ∷ u) h k = ap is_lt (compare.nil-cons e u)
text_lt_trans (c ∷ s) [] u h k = cc (compare.cons-nil c s)
text_lt_trans (c ∷ s) (d ∷ t) [] h k = cc (compare.cons-nil d t)
text_lt_trans (c ∷ s) (d ∷ t) (e ∷ u) h k = ground (
  arith,
  compare.cons-cons c d s t,
  compare.cons-cons d e t u,
  compare.cons-cons c e s u,
  text_lt_trans s t u,
)

-- What is not before `t` cannot be before what `t` is not before.
pub not_text_lt_trans :
    (s t u : String) → text_lt s t ≡ false → text_lt t u ≡ false → text_lt s u ≡ false
unfolding text_lt
not_text_lt_trans [] [] u h k = k
not_text_lt_trans [] (d ∷ t) u h k = cc (compare.nil-cons d t)
not_text_lt_trans (c ∷ s) t [] h k = ap is_lt (compare.cons-nil c s)
not_text_lt_trans (c ∷ s) [] (e ∷ u) h k = cc (compare.nil-cons e u)
not_text_lt_trans (c ∷ s) (d ∷ t) (e ∷ u) h k = ground (
  arith,
  compare.cons-cons c d s t,
  compare.cons-cons d e t u,
  compare.cons-cons c e s u,
  not_text_lt_trans s t u,
)

pub text_lt-asym : (s t : String) → text_lt s t ≡ true → text_lt t s ≡ false
unfolding text_lt
text_lt-asym s t h = ground (arith, text_lt_trans s t s h, compare_refl s)
