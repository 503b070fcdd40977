-- ===== src/Xconfig.antt =====
-- src/xconfig.c: the settings in the configuration file, over libconfig.
use secoli_sced.Base.{
  Bytes, ◌+◌, ◌-◌, ◌*◌, ◌^◌, ◌%◌, Option, none, some, if◌then◌else◌, ltb, ℤ, pos, negsuc, minus_one,
  to_uint,
}

-- libconfig, which is not part of the repository: a configuration that has been read, the groups
-- in it, and what `config_setting_lookup_…` finds there. A `Double` is a C double.
pub record Libconfig : Type 1 where
  pub Config : Type 0
  pub Setting : Type 0
  pub Double : Type 0
  pub config_lookup : Config → Bytes → Option Setting
  pub config_setting_lookup_string : Setting → Bytes → Option Bytes
  pub config_setting_lookup_bool : Setting → Bytes → Option ℤ
  pub config_setting_lookup_int : Setting → Bytes → Option ℤ
  pub config_setting_lookup_int64 : Setting → Bytes → Option ℤ
  pub config_setting_lookup_float : Setting → Bytes → Option Double

-- `(short)` of an int: `bool` is a short.
unfoldable pub to_short : ℤ → ℤ
to_short z = let m = to_uint z % 2 ^ 16 in if ltb m (2 ^ 15) then pos m else negsuc (2 ^ 16 - 1 - m)

-- A long of which `config_setting_lookup_int` writes the lower half, an int; `high` is what its
-- upper half has.
unfoldable pub with_low : ℤ → ℤ → ℤ
with_low (pos h) z = pos (h * 2 ^ 32 + to_uint z)
with_low (negsuc h) z = negsuc (h * 2 ^ 32 + (2 ^ 32 - 1 - to_uint z))

module _ (L : Libconfig) where
  -- `Config`, where `ConfigOK` is true. `read` is what `config_read_file` makes of a file.
  unfoldable pub xconfig_read_file :
      (Bytes → Option L.Config) → Bytes → Option L.Config → ℤ × Option L.Config
  xconfig_read_file read filename (some c) = (minus_one, some c)
  xconfig_read_file read filename none = elim (read filename) [
    | none ↦ (minus_one, none)
    | some c ↦ (pos 0, some c)
  ]

  unfoldable pub xconfig_clear : Option L.Config → Option L.Config
  xconfig_clear c = none

  abbrev lookup : {A : Type 0} → (L.Setting → Option A) → Option L.Config → Bytes → A → A
  lookup get none path d = d
  lookup get (some c) path d = elim (L.config_lookup c path) [
    | none ↦ d
    | some setting ↦ elim (get setting) [ none ↦ d | some value ↦ value ]
  ]

  unfoldable pub xconfig_get_string : Option L.Config → Bytes → Bytes → Bytes → Bytes
  xconfig_get_string c path key = lookup (λ s. L.config_setting_lookup_string s key) c path

  unfoldable pub xconfig_get_bool : Option L.Config → Bytes → Bytes → ℤ → ℤ
  unfolding to_short
  xconfig_get_bool c path key =
      lookup
        (λ s. elim (L.config_setting_lookup_bool s key) [
          | none ↦ none
          | some v ↦ some (to_short v)
        ])
        c path

  unfoldable pub xconfig_get_int : ℤ → Option L.Config → Bytes → Bytes → ℤ → ℤ
  unfolding with_low
  xconfig_get_int high c path key =
      lookup
        (λ s. elim (L.config_setting_lookup_int s key) [
          | none ↦ none
          | some v ↦ some (with_low high v)
        ])
        c path

  unfoldable pub xconfig_get_int64 : Option L.Config → Bytes → Bytes → ℤ → ℤ
  xconfig_get_int64 c path key = lookup (λ s. L.config_setting_lookup_int64 s key) c path

  unfoldable pub xconfig_get_float : Option L.Config → Bytes → Bytes → L.Double → L.Double
  xconfig_get_float c path key = lookup (λ s. L.config_setting_lookup_float s key) c path
