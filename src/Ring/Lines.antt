-- ===== src/Ring/Lines.antt =====
-- What `ring_write` writes, and `ring_read_string` reads by lines.
use secoli_sced.Base.{
  Bytes, ℕ, suc, ◌+◌, ◌-◌, ◌≤◌, ◌<◌, Bool, true, false, Bool-cases, inl, inr, zero, ◌≡◌, refl, ◌∙◌,
  ap, [], ◌∷◌, ◌++◌, Option, none, some, if◌then◌else◌, arith, pos, length, take, drop, set,
  take_all, length-append,
}
use mathlib.Core.List.{append-nil}
use secoli_sced.Ring.Libvrb.{Vrb}
use secoli_sced.Ring.{
  Ring, ring_create, ring_write, ring_read, ring_read_string, read_line, find_line_end, ends_line,
}

-- No byte of the line ends it.
unfoldable pub is_line : Bytes → Bool
is_line [] = true
is_line (c ∷ cs) = if ends_line c then false else is_line cs

find_line_end-line :
    (line rest : Bytes) (c k n : ℕ)
    → k ≡ length line + suc n
    → is_line line ≡ true
    → ends_line c ≡ true
    → find_line_end (line ++ c ∷ rest) k ≡ some n
unfolding find_line_end is_line
find_line_end-line [] rest c k n s l e = rw e (ap some (omega arith))
find_line_end-line (d ∷ line) rest c k n s l e = elim (Bool-cases (ends_line d)) [
  | inl f ↦ cc (rw f at l)
  | inr f ↦ rw f (find_line_end-line line rest c (k - 1) n (omega arith) (rw f at l) e)
]

take_line :
    (line rest : Bytes) (c : ℕ) → take (suc (length line)) (line ++ c ∷ rest) ≡ line ++ c ∷ []
take_line [] rest c = refl
take_line (d ∷ line) rest c = ap (◌∷◌ d) (take_line line rest c)

drop_line : (line rest : Bytes) (c : ℕ) → drop (suc (length line)) (line ++ c ∷ rest) ≡ rest
drop_line [] rest c = refl
drop_line (d ∷ line) rest c = drop_line line rest c

set_line : (line : Bytes) (c : ℕ) → set (line ++ c ∷ []) (length line) 0 ≡ line ++ 0 ∷ []
set_line [] c = refl
set_line (d ∷ line) c = ap (◌∷◌ d) (set_line line c)

drop_past : (n : ℕ) (xs : Bytes) → length xs ≤ n → drop n xs ≡ []
drop_past zero [] h = refl
drop_past (suc n) [] h = refl
drop_past zero (x ∷ xs) h = ground arith
drop_past (suc n) (x ∷ xs) h = drop_past n xs (omega arith)

-- The zero that is written in place of the line end.
filled : Bytes → Bytes → ℕ → Bytes
filled read target n = set (read ++ drop (length read) target) (n - 1) 0

filled-line :
    (line target read : Bytes) (c : ℕ)
    → read ≡ line ++ c ∷ []
    → length target ≡ suc (length line)
    → filled read target (suc (length line)) ≡ line ++ 0 ∷ []
unfolding filled
filled-line line target read c e s =
    let n : length read ≡ suc (length line) =
      omega (arith, ap length e, length-append line (c ∷ [])) in
    let none_left : drop (length read) target ≡ [] = drop_past (length read) target (omega arith) in
    let at_end : suc (length line) - 1 ≡ length line = omega arith in
    rw (none_left, append-nil read, e, at_end) (set_line line c)

module _ (V : Vrb) where
  abbrev pub ring_at : V.Carrier → Option (Ring V)
  ring_at v = some (record { vrb = some v })

  abbrev pub NextLine : (ℕ → Option Bytes) → V.Carrier → Bytes → Bytes → Type 0
  NextLine memory v line rest =
      (w : V.Carrier) × (ring_read_string V memory (ring_at v)
        ≡ some (some (line ++ 0 ∷ []), ring_at w))
      × (V.vrb_data_ptr w ≡ rest)

  read_line-eq :
      (v : V.Carrier) (target : Bytes) (n : ℕ)
      → read_line V (some target) (ring_at v) (suc n)
        ≡ some
            (some (filled (V.vrb_get v (suc n)).0 target (suc n)), ring_at (V.vrb_get v (suc n)).1)
  unfolding read_line ring_read filled
  read_line-eq v target n = ground arith

  abbrev pub size_of : V.Carrier → ℕ
  size_of v = length (V.vrb_data_ptr v) + V.vrb_space_len v

  pub ring_read_string_empty :
      (memory : ℕ → Option Bytes) (v : V.Carrier)
      → V.vrb_data_ptr v ≡ []
      → ring_read_string V memory (ring_at v) ≡ some (none, ring_at v)
  unfolding ring_read_string
  ring_read_string_empty memory v d =
      let empty : V.vrb_is_empty v ≡ true = V.vrb_is_empty-length v ∙ rw d refl in rw empty refl

  -- The data of a buffer up to the first line end are read, and a zero in its place.
  pub ring_read_string-line :
      (memory : ℕ → Option Bytes) (v : V.Carrier) (line rest target : Bytes) (c : ℕ)
      → V.vrb_data_ptr v ≡ line ++ c ∷ rest
      → is_line line ≡ true
      → ends_line c ≡ true
      → memory (suc (length line)) ≡ some target
      → length target ≡ suc (length line)
      → (next : NextLine memory v line rest) × (size_of next.0 ≡ size_of v)
  unfolding ring_read_string
  ring_read_string-line memory v line rest target c d l e m size =
      let len : length (V.vrb_data_ptr v) ≡ length line + suc (length rest) =
        ap length d ∙ length-append line (c ∷ rest) in
      let found : find_line_end (V.vrb_data_ptr v) (V.vrb_data_len v) ≡ some (length rest) =
        rw d (find_line_end-line line rest c _ (length rest) (V.vrb_data_len-length v ∙ len) l e) in
      let holds_some : V.vrb_is_empty v ≡ false = V.vrb_is_empty-length v ∙ ground (arith, len) in
      let count : V.vrb_data_len v - length rest ≡ suc (length line) =
        omega (arith, len, V.vrb_data_len-length v) in
      let read = V.vrb_get-bytes v (suc (length line)) ∙ rw d (take_line line rest c) in
      (
        (
          (V.vrb_get v (suc (length line))).1,
          rw (holds_some, found, count, m, read_line-eq v target (length line))
              (ap (λ t. some (some t, ring_at (V.vrb_get v (suc (length line))).1))
                (filled-line line target _ c read size)),
          V.vrb_get-data v (suc (length line)) ∙ rw d (drop_line line rest c),
        ),
        V.vrb_get-size v (suc (length line)),
      )

  pub ring_write-fits :
      (v : V.Carrier) (text : Bytes)
      → 0 < length text
      → (V.vrb_put v text).0 ≡ length text
      → ring_write V (ring_at v) (some text) ≡ (pos 0, ring_at (V.vrb_put v text).1)
  unfolding ring_write
  ring_write-fits v text l e = ground arith

  -- When libvrb gives a buffer of a size that holds a line, the byte that ends it and what follows,
  -- and xmalloc gives memory for the line and one byte: `ring_create` returns the buffer,
  -- `ring_write` writes all to it without an error, and `ring_read_string` returns the line with a
  -- zero behind it. What follows is left in the buffer.
  pub ring_write-ring_read_string :
      (memory : ℕ → Option Bytes) (v : V.Carrier) (size : ℕ) (line rest target : Bytes) (c : ℕ)
      → V.vrb_new size ≡ some v
      → length line + suc (length rest) ≤ size
      → is_line line ≡ true
      → ends_line c ≡ true
      → memory (suc (length line)) ≡ some target
      → length target ≡ suc (length line)
      → (w : V.Carrier) × (ring_create V true size ≡ ring_at v)
        × (ring_write V (ring_at v) (some (line ++ c ∷ rest)) ≡ (pos 0, ring_at w))
        × NextLine memory w line rest
  unfolding ring_create
  ring_write-ring_read_string memory v size line rest target c made room l e m s =
      let (empty, space) = V.vrb_new-data size v made in
      let text = line ++ c ∷ rest in
      let fits : take (V.vrb_space_len v) text ≡ text =
        take_all _ text (omega (arith, length-append line (c ∷ rest))) in
      let stored : V.vrb_data_ptr (V.vrb_put v text).1 ≡ text =
        V.vrb_put-data v text ∙ rw (empty, fits) refl in
      (
        (V.vrb_put v text).1,
        rw (made, ring_create) refl,
        ring_write-fits v text (omega (arith, length-append line (c ∷ rest)))
            (V.vrb_put-count v text ∙ ap length fits),
        (ring_read_string-line memory _ line rest target c stored l e m s).0,
      )
