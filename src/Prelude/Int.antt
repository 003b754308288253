-- ===== src/Prelude/Int.antt =====
-- Signed integers over the native numbers, for values that the source lets be negative.
use Prim.Native.Nat.{ℕ, suc, ◌+◌, ◌-◌}
use mathlib.Core.Bool.{Bool}
use codex_test.Prelude.Tests.{ltb, leb, nat_eq, if◌then◌else◌}

-- `negsuc n` is -(n + 1).
pub data ℤ : Type 0 where
  pos : ℕ → ℤ
  negsuc : ℕ → ℤ

abbrev pub pos_part : ℤ → ℕ
pos_part (pos n) = n
pos_part (negsuc n) = 0

abbrev pub neg_part : ℤ → ℕ
neg_part (pos n) = 0
neg_part (negsuc n) = suc n

abbrev pub ltb_ℤ : ℤ → ℤ → Bool
ltb_ℤ a b = ltb (pos_part a + neg_part b) (pos_part b + neg_part a)

abbrev pub eq_ℤ : ℤ → ℤ → Bool
eq_ℤ a b = nat_eq (pos_part a + neg_part b) (pos_part b + neg_part a)

-- `n <= 0`
abbrev pub not_positive : ℤ → Bool
not_positive n = nat_eq (pos_part n) 0

-- `a - b`
unfoldable pub sub_ℤ : ℤ → ℤ → ℤ
sub_ℤ a b =
    let up = pos_part a + neg_part b in
    let down = pos_part b + neg_part a in
    if leb down up then pos (up - down) else negsuc (down - up - 1)
