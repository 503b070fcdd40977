-- ===== src/Base/Int.antt =====
-- C integers: ℤ over the native numbers, comparisons, and the conversions between `int` and
-- `unsigned int`, both 32 bits wide.
use Prim.Native.Nat.{ℕ, suc, ◌+◌, ◌-◌, ◌^◌, ◌%◌, ◌≤◌}
use mathlib.Core.Bool.{Bool, true, false}
use secoli_sced.Base.Tests.{ltb, leb, ◌==◌, if◌then◌else◌}

-- `negsuc n` is -(n + 1).
pub data ℤ : Type 0 where
  pos : ℕ → ℤ
  negsuc : ℕ → ℤ

abbrev pub minus_one : ℤ
minus_one = negsuc 0

abbrev pub pos_part : ℤ → ℕ
pos_part (pos n) = n
pos_part (negsuc n) = 0

abbrev pub neg_part : ℤ → ℕ
neg_part (pos n) = 0
neg_part (negsuc n) = suc n

-- a - b, as an integer.
abbrev pub sub_ℕ : ℕ → ℕ → ℤ
sub_ℕ a b = if leb b a then pos (a - b) else negsuc (b - a - 1)

infixl 65 ◌+ℤ◌ ◌-ℤ◌
abbrev pub ◌+ℤ◌ : ℤ → ℤ → ℤ
a +ℤ b = sub_ℕ (pos_part a + pos_part b) (neg_part a + neg_part b)

abbrev pub ◌-ℤ◌ : ℤ → ℤ → ℤ
a -ℤ b = sub_ℕ (pos_part a + neg_part b) (neg_part a + pos_part b)

abbrev pub ltb_ℤ : ℤ → ℤ → Bool
ltb_ℤ a b = ltb (pos_part a + neg_part b) (pos_part b + neg_part a)

abbrev pub eqb_ℤ : ℤ → ℤ → Bool
eqb_ℤ a b = pos_part a + neg_part b == pos_part b + neg_part a

-- `x < 0`, as a status is tested.
abbrev pub is_neg : ℤ → Bool
is_neg (pos n) = false
is_neg (negsuc n) = true

-- One more than INT_MAX.
abbrev pub int_limit : ℕ
int_limit = 2 ^ 31

-- `(int)` of an unsigned number, modulo 2^32.
abbrev pub int_of_word : ℕ → ℤ
int_of_word m = if ltb m int_limit then pos m else negsuc (2 ^ 32 - 1 - m)

abbrev pub to_int : ℕ → ℤ
to_int n = int_of_word (n % 2 ^ 32)

-- `(unsigned int)` of an integer.
abbrev pub to_uint : ℤ → ℕ
to_uint (pos n) = n % 2 ^ 32
to_uint (negsuc n) = 2 ^ 32 - 1 - n % 2 ^ 32

-- The values of an `int`.
abbrev pub IsInt : ℤ → Type 0
IsInt (pos n) = suc n ≤ int_limit
IsInt (negsuc n) = suc n ≤ int_limit
