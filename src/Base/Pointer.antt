-- ===== src/Base/Pointer.antt =====
-- Setters and getters through a pointer that may be NULL.
use mathlib.Core.Option.{Option, none, some}
use secoli_sced.Base.Int.{ℤ, pos, minus_one}

-- `if (!t || !v) return -1; …; return 0;`
abbrev pub setter {ℓ} : {T V : Type ℓ} → (T → V → T) → Option T → Option V → ℤ × Option T
setter f none v = (minus_one, none)
setter f (some t) none = (minus_one, some t)
setter f (some t) (some v) = (pos 0, some (f t v))

-- `if (!t) return -1; …; return 0;`
abbrev pub update {ℓ κ} : {T : Type ℓ} {V : Type κ} → (T → V → T) → Option T → V → ℤ × Option T
update f none v = (minus_one, none)
update f (some t) v = (pos 0, some (f t v))

-- `if (!t) return d; return t->field;`
abbrev pub getter {ℓ κ} : {T : Type ℓ} {V : Type κ} → (T → V) → V → Option T → V
getter f d none = d
getter f d (some t) = f t
