-- ===== src/Location.antt =====
-- src/location.c: a location found in the consular data. A `char *` is an option, `none` being
-- NULL. strdup is taken to find memory, as the code takes it.
pub mod Names
mod Tests
use secoli_sced.Base.{
  Bytes, codes, ℕ, ◌+◌, Bool, true, false, List, [], ◌∷◌, ◌++◌, Option, none, some, if◌then◌else◌,
  ◌==◌, length, take, ℤ, pos, minus_one, setter, getter,
}
use secoli_sced.Clib.{atol, atoi, snprintf}
use secoli_sced.Queue.{xmalloc}

-- `province` is the string in its three bytes.
pub record Location : Type 0 where
  pub sce_code : ℤ
  pub cons_mae_code : ℤ
  pub zip_code : Option Bytes
  pub province : Bytes
  pub istat_code : ℤ
  pub synonym : Option Bytes
  pub name : Option Bytes
  pub full_name : Option Bytes

-- A location as `location_create` sets its fields.
abbrev pub new_location : Location
new_location = record {
  sce_code = pos 0;
  cons_mae_code = pos 0;
  zip_code = none;
  province = [];
  istat_code = pos 0;
  synonym = none;
  name = none;
  full_name = none;
}

-- The fields are written through what xmalloc returns: `none` is a fault.
abbrev pub location_create : Bool → Option Location
location_create memory = xmalloc memory new_location

abbrev Setter : Type 0
Setter = Option Location → Option Bytes → ℤ × Option Location

unfoldable pub location_set_sce_code : Setter
location_set_sce_code = setter λ loc value. record loc { sce_code = atol value }

unfoldable pub location_set_cons_mae_code : Setter
location_set_cons_mae_code = setter λ loc value. record loc { cons_mae_code = atoi value }

unfoldable pub location_set_zip_code : Setter
location_set_zip_code = setter λ loc value. record loc { zip_code = some value }

-- `strncpy` of two bytes, then a NUL.
unfoldable pub location_set_province : Setter
location_set_province = setter λ loc value. record loc { province = take 2 value }

unfoldable pub location_set_istat_code : Setter
location_set_istat_code = setter λ loc value. record loc { istat_code = atoi value }

unfoldable pub location_set_synonym : Setter
location_set_synonym = setter λ loc value. record loc { synonym = some value }

unfoldable pub location_set_name : Setter
location_set_name = setter λ loc value. record loc { name = some value }

unfoldable pub location_set_full_name : Setter
location_set_full_name = setter λ loc value. record loc { full_name = some value }

-- `strlen`, 0 for NULL
abbrev pub strlen : Option Bytes → ℕ
strlen none = 0
strlen (some s) = length s

abbrev pub text_of : Option Bytes → Bytes
text_of none = []
text_of (some s) = s

-- `%s (%s)` with the synonym and the name
abbrev pub both_names : Bytes → Bytes → Bytes
both_names synonym name = synonym ++ (codes " (" ++ (name ++ codes ")"))

-- The flag is what xmalloc finds for the full name.
unfoldable pub location_refresh_full_name : Bool → Option Location → ℤ × Option Location
location_refresh_full_name memory none = (minus_one, none)
location_refresh_full_name memory (some loc) =
    let synonym_l = strlen loc.synonym in
    let name_l = strlen loc.name in
    if synonym_l == 0
    then (pos 0, some (record loc { full_name = none }))
    else if name_l == 0
    then (pos 0, some (record loc { full_name = loc.synonym }))
    else elim (xmalloc memory (synonym_l + name_l + 4)) [
      | none ↦ (minus_one, some (record loc { full_name = none }))
      | some full_name_l ↦ (
        pos 0,
        some (record loc {
          full_name =
              some (snprintf full_name_l (both_names (text_of loc.synonym) (text_of loc.name)));
        }),
      )
    ]

unfoldable pub location_get_sce_code : Option Location → ℤ
location_get_sce_code = getter (λ loc. loc.sce_code) (pos 0)

unfoldable pub location_get_cons_mae_code : Option Location → ℤ
location_get_cons_mae_code = getter (λ loc. loc.cons_mae_code) (pos 0)

unfoldable pub location_get_zip_code : Option Location → Option Bytes
location_get_zip_code = getter (λ loc. loc.zip_code) none

unfoldable pub location_get_province : Option Location → Bytes
location_get_province = getter (λ loc. loc.province) (codes "EE")

unfoldable pub location_get_istat_code : Option Location → ℤ
location_get_istat_code = getter (λ loc. loc.istat_code) (pos 0)

unfoldable pub location_get_synonym : Option Location → Option Bytes
location_get_synonym = getter (λ loc. loc.synonym) none

unfoldable pub location_get_name : Option Location → Option Bytes
location_get_name = getter (λ loc. loc.name) none

unfoldable pub location_get_full_name : Option Location → Option Bytes
location_get_full_name = getter (λ loc. loc.full_name) none
