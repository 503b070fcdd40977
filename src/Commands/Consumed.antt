-- ===== src/Commands/Consumed.antt =====
-- How many arguments the options take.
use secoli_sced.Action.{pure, bind, ◌>>=◌}
use secoli_sced.Base.{
  Bytes, ℕ, ◌+◌, ◌≤◌, ◌≡◌, refl, Bool, true, false, List, [], ◌∷◌, Option, none, some,
  if◌then◌else◌, length, arith,
}
use secoli_sced.Commands.Slurp.{slurp_and_set_options}
use secoli_sced.Options.Table.{option_set}
use secoli_sced.Search.{Glib}
use secoli_sced.World.{World, Host, SessionArg, Do}
use secoli_sced.Xsqlite.{Sqlite}

module _ (S : Sqlite) (G : Glib) where
  -- What an action returns, whatever the world.
  pub record Returns {A : Type 0} (P : A → Type 0) (m : Do S G A) : Type 0 where
    pub at : (w w' : World G S) (a : A) → m w ≡ some (a, w') → P a

  pure-Returns : {A : Type 0} (P : A → Type 0) (a : A) → P a → Returns P (pure a)
  unfolding pure
  pure-Returns P a h = record { at = λ w w' b e. let p : a ≡ b = cc e in rw p at h }

  if-Returns :
      {A : Type 0} (P : A → Type 0) (b : Bool) (m k : Do S G A)
      → Returns P m
      → Returns P k
      → Returns P (if b then m else k)
  if-Returns P true m k p q = p
  if-Returns P false m k p q = q

  bound :
      {A B : Type 0} (P : B → Type 0) (r : Option (A × World G S)) (f : A → Do S G B)
      → ((a : A) (w2 : World G S) → r ≡ some (a, w2) → Returns P (f a))
      → (w' : World G S) (b : B) → bind r f ≡ some (b, w')
      → P b
  bound P none f h w' b e = cc e
  bound P (some (a, w2)) f h w' b e = (h a w2 refl).at w2 w' b e

  bind-Returns :
      {A B : Type 0} (P : B → Type 0) (Q : A → Type 0) (m : Do S G A) (f : A → Do S G B)
      → Returns Q m
      → ((a : A) → Q a → Returns P (f a))
      → Returns P (m >>= f)
  unfolding ◌>>=◌
  bind-Returns P Q m f h k = record {
    at = λ w w' b e. bound P (m w) f (λ a w2 e2. k a (h.at w w2 a e2)) w' b e;
  }

  any-Returns : {A : Type 0} (m : Do S G A) → Returns (λ a. Unit {0}) m
  any-Returns m = record { at = λ w w' a e. tt }

  module _ (H : Host G) where
    slurp-Returns :
        (argv : List Bytes) (s : SessionArg G) (scope : ℕ)
        → Returns (λ n. n ≤ length argv) (slurp_and_set_options S G H argv s scope)
    unfolding slurp_and_set_options
    slurp-Returns [] s scope = pure-Returns _ 0 (omega arith)
    slurp-Returns (cmd ∷ []) s scope = pure-Returns _ 0 (omega arith)
    slurp-Returns (cmd ∷ value ∷ []) s scope =
        bind-Returns _ _ _ _ (any-Returns (option_set S G H cmd value s scope))
          λ status _. pure-Returns _ _ (ground arith)
    slurp-Returns (cmd ∷ value ∷ a ∷ []) s scope =
        bind-Returns _ _ _ _ (any-Returns (option_set S G H cmd value s scope))
          λ status _. pure-Returns _ _ (ground arith)
    slurp-Returns (cmd ∷ value ∷ a ∷ b ∷ argv) s scope =
        bind-Returns _ _ _ _ (any-Returns (option_set S G H cmd value s scope)) λ status _.
          if-Returns _ _ _ _ (pure-Returns _ 0 (omega arith)) (
            if-Returns _ _ _ _
              (bind-Returns _ _ _ _ (slurp-Returns (b ∷ argv) s scope)
                λ used h. pure-Returns _ (used + 3) (omega (arith, h)))
              (pure-Returns _ 2 (omega arith)))

    -- The options take no more arguments than there are, so that what `find_get_handler` looks at
    -- behind them is inside of argv.
    pub slurp_and_set_options-bounded :
        (argv : List Bytes) (s : SessionArg G) (scope n : ℕ) (w w' : World G S)
        → slurp_and_set_options S G H argv s scope w ≡ some (n, w')
        → n ≤ length argv
    slurp_and_set_options-bounded argv s scope n w w' e = (slurp-Returns argv s scope).at w w' n e
