-- ===== src/Commands/Slurp.antt =====
-- src/commands.c: the options and the values that stand in a command's arguments.
use secoli_sced.Action.{pure, ◌>>=◌}
use secoli_sced.Base.{Bytes, codes, ℕ, ◌+◌, List, [], ◌∷◌, Option, if◌then◌else◌, str_eq, is_neg}
use secoli_sced.Options.Table.{option_set}
use secoli_sced.Search.{Glib}
use secoli_sced.Utils.{flatten_argv}
use secoli_sced.World.{Host, SessionArg, Do}
use secoli_sced.Xsqlite.{Sqlite}

unfoldable pub slurp_name : List Bytes → Option Bytes
unfolding flatten_argv
slurp_name = flatten_argv

unfoldable pub slurp_zipcode : List Bytes → Option Bytes
unfolding flatten_argv
slurp_zipcode = flatten_argv

unfoldable pub slurp_mae_code : List Bytes → Option Bytes
unfolding flatten_argv
slurp_mae_code = flatten_argv

module _ (S : Sqlite) (G : Glib) (H : Host G) where
  -- How many arguments are used up. Behind AND stand two arguments or more less than before: the
  -- recursion ends.
  unfoldable pub slurp_and_set_options : List Bytes → SessionArg G → ℕ → Do S G ℕ
  unfolding option_set
  slurp_and_set_options [] s scope = pure 0
  slurp_and_set_options (cmd ∷ []) s scope = pure 0
  slurp_and_set_options (cmd ∷ value ∷ []) s scope =
      option_set S G H cmd value s scope >>= λ status. pure (if is_neg status then 0 else 2)
  slurp_and_set_options (cmd ∷ value ∷ a ∷ []) s scope =
      option_set S G H cmd value s scope >>= λ status. pure (if is_neg status then 0 else 2)
  slurp_and_set_options (cmd ∷ value ∷ a ∷ b ∷ argv) s scope =
      let others = slurp_and_set_options (b ∷ argv) s scope in
      option_set S G H cmd value s scope >>= λ status.
      if is_neg status
      then pure 0
      else if str_eq a (codes "AND")
      then (others >>= λ used. pure (used + 3))
      else pure 2
