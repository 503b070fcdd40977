-- ===== src/Utils/Tests.antt =====
-- Arguments and names, and the theorems at them.
use secoli_sced.Base.{codes, ◌≡◌, refl, [], ◌∷◌, some}
use mathlib.Core.Option.{map as option_map}
use secoli_sced.Parse.{is_whitespace, is_final}
use secoli_sced.Parse.Tokens.{tokens, flush}
use secoli_sced.Utils.{flatten_argv, get_first_token}
use secoli_sced.Utils.Flatten.{AreWords, flatten_argv-tokens}

outward_code : get_first_token (codes "  SW1A 1AA") (codes " ") ≡ some (codes "SW1A")
unfolding get_first_token
outward_code = refl

new_york : AreWords (codes "New" ∷ codes "York" ∷ [])
unfolding is_final is_whitespace flush
new_york = (
  refl,
  (refl, refl, (refl, refl, (refl, refl, tt))),
  (refl, (refl, refl, (refl, refl, (refl, refl, (refl, refl, tt)))), tt),
)

flatten_argv-tokens_example :
    option_map tokens (flatten_argv (codes "New" ∷ codes "York" ∷ []))
    ≡ some (codes "New" ∷ codes "York" ∷ [])
flatten_argv-tokens_example = flatten_argv-tokens (codes "New") (codes "York" ∷ []) new_york
