-- ===== src/Action.antt =====
-- A computation that changes a state, and may fault: `none` stands for a read or write through a
-- pointer that is not the code's to follow.
use secoli_sced.Base.{Option, none, some}

abbrev pub Action : Type 0 → Type 0 → Type 0
Action W A = W → Option (A × W)

module _ {W A : Type 0} where
  unfoldable pub pure : A → Action W A
  pure a w = some (a, w)

  unfoldable pub fault : Action W A
  fault w = none

  unfoldable pub gets : (W → A) → Action W A
  gets f w = some (f w, w)

unfoldable pub modify : {W : Type 0} → (W → W) → Action W (Unit {0})
modify f w = some (tt, f w)

abbrev pub bind : {W A B : Type 0} → Option (A × W) → (A → Action W B) → Option (B × W)
bind none f = none
bind (some (a, w)) f = f a w

infixl 5 ◌>>=◌ ◌>>◌
-- Opening this opens the four above.
unfoldable pub ◌>>=◌ : {W A B : Type 0} → Action W A → (A → Action W B) → Action W B
unfolding pure fault gets modify
◌>>=◌ m f w = bind (m w) f

abbrev pub ◌>>◌ : {W A B : Type 0} → Action W A → Action W B → Action W B
m >> k = m >>= λ _. k

-- `if (!x) …; …`
unfoldable pub unless_null :
    {W A B : Type 0} → Option B → Action W A → (B → Action W A) → Action W A
unless_null none m f = m
unless_null (some b) m f = f b
