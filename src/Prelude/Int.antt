-- ===== src/Prelude/Int.antt =====
-- Go's `int` and `int64`: signed integers over the native numbers, with the two-complement wrap of
-- a step by one written out.
use Prim.Native.Nat.{ℕ, zero, suc, ◌+◌, ◌-◌, ◌^◌, ◌≤◌}
use mathlib.Core.Bool.{Bool}
use haribon.Prelude.Tests.{ltb, leb, ◌==◌, if◌then◌else◌}

-- `negsuc n` is -(n + 1).
pub data ℤ : Type 0 where
  pos : ℕ → ℤ
  negsuc : ℕ → ℤ

abbrev pub pos_part : ℤ → ℕ
pos_part (pos n) = n
pos_part (negsuc n) = 0

abbrev pub neg_part : ℤ → ℕ
neg_part (pos n) = 0
neg_part (negsuc n) = suc n

-- a - b, as an integer.
abbrev pub sub_ℕ : ℕ → ℕ → ℤ
sub_ℕ a b = if leb b a then pos (a - b) else negsuc (b - a - 1)

infix 50 ◌≤ℤ◌
abbrev pub ◌≤ℤ◌ : ℤ → ℤ → Type 0
a ≤ℤ b = pos_part a + neg_part b ≤ pos_part b + neg_part a

abbrev pub ltb_ℤ : ℤ → ℤ → Bool
ltb_ℤ a b = ltb (pos_part a + neg_part b) (pos_part b + neg_part a)

abbrev pub leb_ℤ : ℤ → ℤ → Bool
leb_ℤ a b = leb (pos_part a + neg_part b) (pos_part b + neg_part a)

abbrev pub max_int64 : ℕ
max_int64 = 2 ^ 63 - 1

-- x + 1 and x - 1 on int64.
unfoldable pub inc_int64 : ℤ → ℤ
inc_int64 (pos n) = if n == max_int64 then negsuc max_int64 else pos (suc n)
inc_int64 (negsuc zero) = pos 0
inc_int64 (negsuc (suc n)) = negsuc n

unfoldable pub dec_int64 : ℤ → ℤ
dec_int64 (pos zero) = negsuc 0
dec_int64 (pos (suc n)) = pos n
dec_int64 (negsuc n) = if n == max_int64 then pos max_int64 else negsuc (suc n)

-- x + y on int64: the sum, brought back into the range by 2 ^ 64.
abbrev pub wrap_int64 : ℤ → ℤ
wrap_int64 (pos n) = if leb n max_int64 then pos n else negsuc (2 ^ 64 - 1 - n)
wrap_int64 (negsuc n) = if leb n max_int64 then negsuc n else pos (2 ^ 64 - 1 - n)

unfoldable pub add_int64 : ℤ → ℤ → ℤ
add_int64 x y = wrap_int64 (sub_ℕ (pos_part x + pos_part y) (neg_part x + neg_part y))
