-- ===== src/Location/Tests.antt =====
-- A location with two names, and the theorem at it.
use secoli_sced.Base.{codes, ◌≡◌, refl, true, some, pos}
use secoli_sced.Location.{Location, new_location, location_refresh_full_name}
use secoli_sced.Location.Names.{full_name_of, location_refresh_full_name-full_name_of}

abbrev bolzano : Location
bolzano = record new_location { synonym = some (codes "Bozen"); name = some (codes "Bolzano") }

bolzano-full_name :
    full_name_of (some (codes "Bozen")) (some (codes "Bolzano")) ≡ some (codes "Bozen (Bolzano)")
unfolding full_name_of
bolzano-full_name = refl

location_refresh_full_name-full_name_of_example : location_refresh_full_name true (some bolzano) ≡ (
  pos 0,
  some
      (record bolzano { full_name = full_name_of (some (codes "Bozen")) (some (codes "Bolzano")) }),
)
location_refresh_full_name-full_name_of_example =
    location_refresh_full_name-full_name_of bolzano (some (codes "Bozen")) (some (codes "Bolzano"))
      refl refl
