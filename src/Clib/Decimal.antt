-- ===== src/Clib/Decimal.antt =====
-- Reading back what `%u` prints.
use secoli_sced.Base.{
  Bytes, ℕ, zero, suc, ◌+◌, ◌*◌, ◌/◌, ◌%◌, ◌^◌, ◌<◌, ◌≤◌, ◌≡◌, sym, ◌∙◌, ap, true, [], ◌∷◌, arith,
  ltb, Bool-cases, inl, inr, length, pos, to_uint,
}
use secoli_sced.Clib.{
  is_digit, is_space, scan, clamp, atol, decimal_from, decimal, long_limit, int_of,
}

scan-decimal_from :
    (fuel n : ℕ) (out : Bytes) → n < fuel → scan 0 (decimal_from fuel n out) ≡ scan n out
unfolding decimal_from
scan-decimal_from zero n out h = elim h [ ]
scan-decimal_from (suc fuel) n out h = elim (Bool-cases (ltb n 10)) [
  | inl small ↦ rw (small, decimal_from) (unfold scan is_digit in ground arith)
  | inr large ↦
      rw (large, decimal_from)
        (scan-decimal_from fuel (n / 10) ((b'0' + n % 10) ∷ out) (ground arith)
          ∙ unfold scan is_digit in ground arith)
]

-- A number begins with a digit.
decimal_from-digit :
    (fuel n : ℕ) (out : Bytes)
    → n < fuel
    → (c : ℕ) × (s : Bytes) × (decimal_from fuel n out ≡ c ∷ s) × (is_digit c ≡ true)
unfolding decimal_from
decimal_from-digit zero n out h = elim h [ ]
decimal_from-digit (suc fuel) n out h = elim (Bool-cases (ltb n 10)) [
  | inl small ↦ (b'0' + n, out, rw (small, decimal_from), unfold is_digit in ground arith)
  | inr large ↦
      let (c, s, e, d) = decimal_from-digit fuel (n / 10) ((b'0' + n % 10) ∷ out) (ground arith) in
      (c, s, rw (large, decimal_from) e, d)
]

atol-digit : (c : ℕ) (s : Bytes) → is_digit c ≡ true → atol (c ∷ s) ≡ clamp (scan 0 (c ∷ s))
unfolding atol is_digit is_space
atol-digit c s d = ground arith

pub scan-decimal : (n : ℕ) → scan 0 (decimal n) ≡ n
unfolding decimal scan
scan-decimal n = scan-decimal_from (suc n) n [] (omega arith)

-- `atol` reads back a number that a long can hold.
pub atol-decimal : (n : ℕ) → n < long_limit → atol (decimal n) ≡ pos n
unfolding decimal
atol-decimal n h =
    let (c, s, e, d) = decimal_from-digit (suc n) n [] (omega arith) in
    rw e (atol-digit c s d)
    ∙ ap (λ t. clamp (scan 0 t)) (sym e)
    ∙ ap clamp (scan-decimal n)
    ∙ unfold clamp in ground arith

pub to_uint-int_of : (n : ℕ) → n < 2 ^ 32 → to_uint (int_of (pos n)) ≡ n
to_uint-int_of n h = ground arith

-- 10 ^ k, by its recursion.
abbrev power_of_ten : ℕ → ℕ
power_of_ten zero = 1
power_of_ten (suc k) = 10 * power_of_ten k

length-decimal_from :
    (k fuel n : ℕ) (out : Bytes)
    → n < 10 * power_of_ten k
    → length (decimal_from fuel n out) ≤ suc k + length out
unfolding decimal_from
length-decimal_from k zero n out h = omega arith
length-decimal_from zero (suc fuel) n out h = ground arith
length-decimal_from (suc k) (suc fuel) n out h = elim (Bool-cases (ltb n 10)) [
  | inl small ↦ rw (small, decimal_from) (omega arith)
  | inr large ↦
      rw (large, decimal_from)
        (omega (arith, length-decimal_from k fuel (n / 10) ((b'0' + n % 10) ∷ out) (omega arith)))
]

-- A 32-bit number has at most ten digits.
pub length-decimal : (n : ℕ) → n < 2 ^ 32 → length (decimal n) ≤ 10
unfolding decimal
length-decimal n h = length-decimal_from 9 (suc n) n [] (omega arith)

-- A number below 1000 has at most three.
pub length-decimal_small : (n : ℕ) → n < 1000 → length (decimal n) ≤ 3
unfolding decimal
length-decimal_small n h = length-decimal_from 2 (suc n) n [] (omega arith)
