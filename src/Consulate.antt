-- ===== src/Consulate.antt =====
-- src/consulate.c: a consulate is its code at the ministry.
use secoli_sced.Base.{Bytes, Bool, Option, ℤ, pos, setter, getter}
use secoli_sced.Clib.{atoi}
use secoli_sced.Queue.{xmalloc}

pub record Consulate : Type 0 where
  pub mae_code : ℤ

-- The field is written through what xmalloc returns: `none` is a fault.
abbrev pub consulate_create : Bool → Option Consulate
consulate_create memory = xmalloc memory (record { mae_code = pos 0 })

unfoldable pub consulate_set_mae_code : Option Consulate → Option Bytes → ℤ × Option Consulate
consulate_set_mae_code = setter λ cons value. record cons { mae_code = atoi value }

unfoldable pub consulate_get_mae_code : Option Consulate → ℤ
consulate_get_mae_code = getter (λ cons. cons.mae_code) (pos 0)
