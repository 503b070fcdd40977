-- ===== src/Parse/Tests.antt =====
-- Messages cut into arguments, and the theorems at them.
use secoli_sced.Base.{Bytes, codes, ℕ, zero, suc, ◌≡◌, refl, arith, [], ◌∷◌}
use secoli_sced.Parse.{is_whitespace, is_final, store, arguments, parse_arguments}
use secoli_sced.Parse.Cut.{parse_arguments-tokens}
use secoli_sced.Parse.Run.{outcome}
use secoli_sced.Parse.Tokens.{tokens}

abbrev junk : ℕ → Bytes
junk zero = []
junk (suc n) = 7 ∷ junk n

find_by_name :
    parse_arguments (junk 20) (codes " FIND\tBY  NAME \rx\nyz")
    ≡ arguments (codes "FIND" ∷ codes "BY" ∷ codes "NAME" ∷ codes "x" ∷ [])
unfolding parse_arguments is_whitespace is_final store
find_by_name = refl

parse_arguments-tokens_example :
    parse_arguments (junk 8) (codes "WHO  AM") ≡ outcome (tokens (codes "WHO  AM"))
parse_arguments-tokens_example = parse_arguments-tokens (junk 8) (codes "WHO  AM") (omega arith)
