-- ===== src/Zipcode.antt =====
-- src/zipcode.c: a zip code and the code of its state.
use secoli_sced.Base.{
  Bytes, Bool, Option, none, some, if◌then◌else◌, ℤ, pos, minus_one, eqb_ℤ, setter, getter,
}
use secoli_sced.Clib.{atoi}
use secoli_sced.Queue.{xmalloc}

abbrev pub cod_state_unset : ℤ
cod_state_unset = minus_one

pub record Zipcode : Type 0 where
  pub cod_state : ℤ
  pub code : Option Bytes

-- The fields are written through what xmalloc returns: `none` is a fault.
abbrev pub zipcode_create : Bool → Option Zipcode
zipcode_create memory = xmalloc memory (record { cod_state = cod_state_unset; code = none })

unfoldable pub zipcode_set_cod_state : Option Zipcode → Option Bytes → ℤ × Option Zipcode
zipcode_set_cod_state = setter λ z value. record z { cod_state = atoi value }

unfoldable pub zipcode_set_cod_state_integer : Option Zipcode → ℤ → ℤ × Option Zipcode
zipcode_set_cod_state_integer none value = (minus_one, none)
zipcode_set_cod_state_integer (some z) value =
    if eqb_ℤ value cod_state_unset
    then (minus_one, some z)
    else (pos 0, some (record z { cod_state = value }))

unfoldable pub zipcode_get_cod_state : Option Zipcode → ℤ
zipcode_get_cod_state = getter (λ z. z.cod_state) (pos 0)

unfoldable pub zipcode_set_code : Option Zipcode → Option Bytes → ℤ × Option Zipcode
zipcode_set_code = setter λ z value. record z { code = some value }

unfoldable pub zipcode_get_code : Option Zipcode → Option Bytes
zipcode_get_code = getter (λ z. z.code) none
