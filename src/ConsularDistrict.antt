-- ===== src/ConsularDistrict.antt =====
-- src/consular_district.c: a territory under a consulate.
use secoli_sced.Base.{Bytes, Bool, Option, none, some, ℤ, pos, minus_one, setter, update, getter}
use secoli_sced.Clib.{atoi, atol, int_of}
use secoli_sced.Queue.{xmalloc}

abbrev pub mae_code_unset : ℤ
mae_code_unset = minus_one

abbrev pub sce_code_unset : ℤ
sce_code_unset = minus_one

pub record ConsularDistrict : Type 0 where
  pub mae_code : ℤ
  pub territory_name : Option Bytes
  pub sce_code : ℤ

abbrev pub new_district : ConsularDistrict
new_district = record {
  mae_code = mae_code_unset;
  territory_name = none;
  sce_code = sce_code_unset;
}

-- The fields are written through what xmalloc returns: `none` is a fault.
abbrev pub consular_district_create : Bool → Option ConsularDistrict
consular_district_create memory = xmalloc memory new_district

abbrev Changed : Type 0
Changed = ℤ × Option ConsularDistrict

unfoldable pub consular_district_set_mae_code : Option ConsularDistrict → Option Bytes → Changed
consular_district_set_mae_code = setter λ cons value. record cons { mae_code = atoi value }

unfoldable pub consular_district_set_mae_code_int : Option ConsularDistrict → ℤ → Changed
consular_district_set_mae_code_int = update λ cons value. record cons { mae_code = value }

unfoldable pub consular_district_get_mae_code : Option ConsularDistrict → ℤ
consular_district_get_mae_code = getter (λ cons. cons.mae_code) (pos 0)

unfoldable pub consular_district_set_territory_name :
    Option ConsularDistrict → Option Bytes → Changed
consular_district_set_territory_name =
    setter λ cons value. record cons { territory_name = some value }

unfoldable pub consular_district_get_territory_name : Option ConsularDistrict → Option Bytes
consular_district_get_territory_name = getter (λ cons. cons.territory_name) none

-- `atol` into an `int`.
unfoldable pub consular_district_set_sce_code : Option ConsularDistrict → Option Bytes → Changed
consular_district_set_sce_code = setter λ cons value. record cons { sce_code = int_of (atol value) }

unfoldable pub consular_district_set_sce_code_int : Option ConsularDistrict → ℤ → Changed
consular_district_set_sce_code_int = update λ cons value. record cons { sce_code = value }

unfoldable pub consular_district_get_sce_code : Option ConsularDistrict → ℤ
consular_district_get_sce_code = getter (λ cons. cons.sce_code) (pos 0)
