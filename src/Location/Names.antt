-- ===== src/Location/Names.antt =====
-- `location_refresh_full_name` on every branch.
use secoli_sced.Base.{
  Bytes, codes, ◌+◌, ◌-◌, ◌≡◌, true, [], ◌∷◌, ◌++◌, Option, none, some, arith, length,
  length-append, take, take_all, pos,
}
use secoli_sced.Location.{Location, location_refresh_full_name, both_names}

-- What the full name of a location should be.
unfoldable pub full_name_of : Option Bytes → Option Bytes → Option Bytes
full_name_of none name = none
full_name_of (some []) name = none
full_name_of (some (c ∷ s)) none = some (c ∷ s)
full_name_of (some (c ∷ s)) (some []) = some (c ∷ s)
full_name_of (some (c ∷ s)) (some (d ∷ n)) = some (both_names (c ∷ s) (d ∷ n))

length-both_names : (s n : Bytes) → length (both_names s n) ≡ length s + length n + 3
length-both_names s n =
    omega (arith, length-append s (codes " (" ++ (n ++ codes ")")), length-append n (codes ")"))

-- The buffer of `synonym_l + name_l + 4` bytes holds the whole text and its NUL.
fits : (s n : Bytes) → take (length s + length n + 4 - 1) (both_names s n) ≡ both_names s n
fits s n = take_all _ (both_names s n) (omega (arith, length-both_names s n))

-- `location_refresh_full_name` sets the full name to the synonym, with the name behind it in
-- parentheses if there is one, to NULL if the synonym is missing or empty, and cuts nothing off;
-- it changes nothing else.
pub location_refresh_full_name-full_name_of :
    (loc : Location) (synonym name : Option Bytes)
    → loc.synonym ≡ synonym
    → loc.name ≡ name
    → location_refresh_full_name true (some loc)
      ≡ (pos 0, some (record loc { full_name = full_name_of synonym name }))
unfolding location_refresh_full_name full_name_of
location_refresh_full_name-full_name_of loc none name e f = ground arith
location_refresh_full_name-full_name_of loc (some []) name e f = ground arith
location_refresh_full_name-full_name_of loc (some (c ∷ s)) none e f = ground arith
location_refresh_full_name-full_name_of loc (some (c ∷ s)) (some []) e f = ground arith
location_refresh_full_name-full_name_of loc (some (c ∷ s)) (some (d ∷ n)) e f =
    ground (arith, fits (c ∷ s) (d ∷ n))
