-- ===== src/Clib.antt =====
-- The functions of the C library that the program's conversions rest on: `atol` and `atoi`
-- (glibc's, by `strtol` with base 10), `%u` and `%d` of `snprintf`.
pub mod Decimal
use secoli_sced.Base.{
  Bytes, ℕ, zero, suc, ◌+◌, ◌-◌, ◌*◌, ◌/◌, ◌%◌, ◌^◌, Bool, true, false, ◌&&◌, ◌||◌, List, [], ◌∷◌,
  ◌++◌, ltb, leb, ◌==◌, if◌then◌else◌, take, ℤ, pos, negsuc, int_of_word, to_uint,
}

unfoldable pub is_digit : ℕ → Bool
is_digit c = leb b'0' c && leb c b'9'

-- `isspace` in the C locale: space and \t \n \v \f \r.
unfoldable pub is_space : ℕ → Bool
is_space c = c == b' ' || leb 9 c && leb c 13

unfoldable pub skip_space : Bytes → Bytes
skip_space [] = []
skip_space (c ∷ s) = if is_space c then skip_space s else c ∷ s

-- The number that the digits at the head of `s` continue.
unfoldable pub scan : ℕ → Bytes → ℕ
scan v [] = v
scan v (c ∷ s) = if is_digit c then scan (v * 10 + (c - b'0')) s else v

-- `strtol` gives LONG_MAX or LONG_MIN where the number is out of range; a `long` has 64 bits.
abbrev pub long_limit : ℕ
long_limit = 2 ^ 63

unfoldable pub clamp : ℕ → ℤ
clamp n = if ltb n long_limit then pos n else pos (long_limit - 1)

unfoldable pub clamp_minus : ℕ → ℤ
clamp_minus n =
    if n == 0 then pos 0 else if ltb n long_limit then negsuc (n - 1) else negsuc (long_limit - 1)

unfoldable pub convert : Bytes → ℤ
unfolding clamp clamp_minus
convert [] = pos 0
convert (c ∷ s) =
    if c == b'-'
    then clamp_minus (scan 0 s)
    else if c == b'+'
    then clamp (scan 0 s)
    else clamp (scan 0 (c ∷ s))

unfoldable pub atol : Bytes → ℤ
unfolding convert skip_space
atol s = convert (skip_space s)

-- `(int)` of a long
abbrev pub int_of : ℤ → ℤ
int_of z = int_of_word (to_uint z)

unfoldable pub atoi : Bytes → ℤ
unfolding atol
atoi s = int_of (atol s)

-- The digits of `n` in front of `out`. Each round divides by ten: `n` and one more are enough.
unfoldable pub decimal_from : ℕ → ℕ → Bytes → Bytes
decimal_from zero n out = out
decimal_from (suc fuel) n out =
    let rest = decimal_from fuel (n / 10) ((b'0' + n % 10) ∷ out) in
    if ltb n 10 then (b'0' + n) ∷ out else rest

-- `%u`
unfoldable pub decimal : ℕ → Bytes
unfolding decimal_from
decimal n = decimal_from (suc n) n []

-- `%d`
unfoldable pub decimal_int : ℤ → Bytes
unfolding decimal
decimal_int (pos n) = decimal n
decimal_int (negsuc n) = b'-' ∷ decimal (suc n)

-- What `snprintf` leaves in a buffer of `size` bytes.
abbrev pub snprintf : ℕ → Bytes → Bytes
snprintf size text = take (size - 1) text
