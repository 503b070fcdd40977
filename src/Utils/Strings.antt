-- ===== src/Utils/Strings.antt =====
-- What the string functions of src/utils.c do, all of them loops over bytes.
use secoli_sced.Base.{Bytes, ◌≡◌, refl, ap, [], ◌∷◌, Option, none, some, inl, inr, Bool-cases}
use secoli_sced.Utils.{is_in, without, remove_chars, if_any}

without-twice : (str rem : Bytes) → without (without str rem) rem ≡ without str rem
unfolding without
without-twice [] rem = refl
without-twice (c ∷ str) rem = elim (Bool-cases (is_in c rem)) [
  | inl hit ↦ rw (hit, without) (without-twice str rem)
  | inr miss ↦ rw (miss, without) (rw (miss, without) (ap (λ s. c ∷ s) (without-twice str rem)))
]

remove_if_any : (s rem : Bytes) → without s rem ≡ s → remove_chars (if_any s) rem ≡ if_any s
unfolding remove_chars
remove_if_any [] rem e = refl
remove_if_any (c ∷ s) rem e = ap if_any e

-- `remove_chars` applied to its own result removes nothing more.
pub remove_chars-twice :
    (str : Option Bytes) (rem : Bytes)
    → remove_chars (remove_chars str rem) rem ≡ remove_chars str rem
unfolding remove_chars
remove_chars-twice none rem = refl
remove_chars-twice (some str) rem = remove_if_any (without str rem) rem (without-twice str rem)
