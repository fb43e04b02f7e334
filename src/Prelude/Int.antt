-- ===== src/Prelude/Int.antt =====
-- Go's `int64` over the native numbers: signed integers with the wrap-around written out.
use Prim.Native.Nat.{ℕ, suc, ◌+◌, ◌-◌, ◌*◌, ◌≤◌, ◌<◌}
use mathlib.Core.Path.{◌≡◌, refl}
use mathlib.Core.Bool.{Bool}
use native.Mathlib.Omega.{arith}
use objstore.Prelude.Tests.{ltb, leb, ◌==◌, if◌then◌else◌}

-- `negsuc n` is -(n + 1).
pub data ℤ : Type 0 where
  pos : ℕ → ℤ
  negsuc : ℕ → ℤ

abbrev pub pos_part : ℤ → ℕ
pos_part (pos n) = n
pos_part (negsuc n) = 0

abbrev pub neg_part : ℤ → ℕ
neg_part (pos n) = 0
neg_part (negsuc n) = suc n

abbrev pub sub_ℕ : ℕ → ℕ → ℤ
sub_ℕ a b = if leb b a then pos (a - b) else negsuc (b - a - 1)

abbrev pub ltb_ℤ : ℤ → ℤ → Bool
ltb_ℤ a b = ltb (pos_part a + neg_part b) (pos_part b + neg_part a)

abbrev pub leb_ℤ : ℤ → ℤ → Bool
leb_ℤ a b = leb (pos_part a + neg_part b) (pos_part b + neg_part a)

abbrev pub eqb_ℤ : ℤ → ℤ → Bool
eqb_ℤ a b = (pos_part a + neg_part b) == (pos_part b + neg_part a)

-- 2 ^ 63, the number of non-negative values of an `int64`.
abbrev pub int64_bound : ℕ
int64_bound = 9223372036854775808

-- The value of `pos_sum - neg_sum` in two's complement, for operands in range.
abbrev wrap : ℕ → ℕ → ℤ
wrap p n =
    if leb (n + int64_bound) p
    then sub_ℕ p (n + 2 * int64_bound)
    else if ltb (p + int64_bound) n
    then sub_ℕ (p + 2 * int64_bound) n
    else sub_ℕ p n

-- `a + b` and `a - b` on `int64`.
unfoldable pub add64 : ℤ → ℤ → ℤ
add64 a b = wrap (pos_part a + pos_part b) (neg_part a + neg_part b)

unfoldable pub sub64 : ℤ → ℤ → ℤ
sub64 a b = wrap (pos_part a + neg_part b) (neg_part a + pos_part b)

-- The range of an `int64`.
abbrev pub InRange64 : ℤ → Type 0
InRange64 (pos n) = n < int64_bound
InRange64 (negsuc n) = n < int64_bound

pub add64-InRange64 : (a b : ℤ) → InRange64 a → InRange64 b → InRange64 (add64 a b)
unfolding add64
add64-InRange64 (pos a) (pos b) h k = ground arith
add64-InRange64 (pos a) (negsuc b) h k = ground arith
add64-InRange64 (negsuc a) (pos b) h k = ground arith
add64-InRange64 (negsuc a) (negsuc b) h k = ground arith

add64_overflow : add64 (pos 1) (pos (int64_bound - 1)) ≡ negsuc (int64_bound - 1)
unfolding add64
add64_overflow = refl

-- In range, the sum is the sum.
pub add64_exact : (a b : ℕ) → a + b < int64_bound → add64 (pos a) (pos b) ≡ pos (a + b)
unfolding add64
add64_exact a b h = ground arith

pub add64_wraps :
    (a b : ℕ)
    → a < int64_bound
    → b < int64_bound
    → int64_bound ≤ a + b
    → add64 (pos a) (pos b) ≡ negsuc (2 * int64_bound - (a + b) - 1)
unfolding add64
add64_wraps a b h k o = ground arith

pub sub64_exact : (a b : ℕ) → b ≤ a → a < int64_bound → sub64 (pos a) (pos b) ≡ pos (a - b)
unfolding sub64
sub64_exact a b h k = ground arith
