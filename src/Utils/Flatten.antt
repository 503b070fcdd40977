-- ===== src/Utils/Flatten.antt =====
-- `flatten_argv` and `parse_message`: the arguments joined by blanks are cut into the same again.
use secoli_sced.Base.{Bytes, ℕ, ◌≡◌, refl, ap, ◌∙◌, sym, List, [], ◌∷◌, ◌++◌, some}
use mathlib.Core.List.{append-nil, append_assoc}
use mathlib.Core.Option.{map as option_map}
use secoli_sced.Parse.{is_whitespace, is_final}
use secoli_sced.Parse.Tokens.{flush, tokens_from, tokens, IsPlain}
use secoli_sced.Utils.{flatten, flatten_argv, drop_last}

-- Arguments as `parse_message` gives them: none is empty, and none has a byte that ends one.
abbrev pub AreWords : List Bytes → Type 0
AreWords [] = Unit {0}
AreWords (w ∷ ws) = (flush w ≡ w ∷ []) × IsPlain w × AreWords ws

last_word : (cur w : Bytes) → IsPlain w → tokens_from cur w ≡ flush (cur ++ w)
unfolding tokens_from
last_word cur [] p = ap flush (sym (append-nil cur))
last_word cur (c ∷ w) (final, white, p) =
    rw (final, white, tokens_from)
      (last_word (cur ++ c ∷ []) w p ∙ ap flush (append_assoc cur (c ∷ []) w))

next_word :
    (cur w s : Bytes)
    → IsPlain w
    → tokens_from cur (w ++ b' ' ∷ s) ≡ flush (cur ++ w) ++ tokens_from [] s
unfolding tokens_from is_final is_whitespace
next_word cur [] s p = ap (λ v. flush v ++ tokens_from [] s) (sym (append-nil cur))
next_word cur (c ∷ w) s (final, white, p) =
    rw (final, white, tokens_from)
      (next_word (cur ++ c ∷ []) w s p
        ∙ ap (λ v. flush v ++ tokens_from [] s) (append_assoc cur (c ∷ []) w))

drop_last-end : (a : Bytes) (c : ℕ) → drop_last (a ++ c ∷ []) ≡ a
drop_last-end [] c = refl
drop_last-end (x ∷ []) c = refl
drop_last-end (x ∷ y ∷ a) c = ap (λ s. x ∷ s) (drop_last-end (y ∷ a) c)

drop_last-inside :
    (a : Bytes) (c d : ℕ) (s : Bytes) → drop_last (a ++ c ∷ d ∷ s) ≡ a ++ c ∷ drop_last (d ∷ s)
drop_last-inside [] c d s = refl
drop_last-inside (x ∷ []) c d s = refl
drop_last-inside (x ∷ y ∷ a) c d s = ap (λ t. x ∷ t) (drop_last-inside (y ∷ a) c d s)

tokens-flatten :
    (a : Bytes) (argv : List Bytes)
    → AreWords (a ∷ argv)
    → tokens_from [] (drop_last (flatten (a ∷ argv))) ≡ a ∷ argv
unfolding flatten flush
tokens-flatten a [] (full, plain, _) =
    ap (tokens_from []) (drop_last-end a b' ') ∙ last_word [] a plain ∙ full
tokens-flatten a ([] ∷ argv) (full, plain, words) = absurd (cc words.0)
tokens-flatten a ((d ∷ b) ∷ argv) (full, plain, words) =
    ap (tokens_from []) (drop_last-inside a b' ' d (b ++ b' ' ∷ flatten argv))
    ∙ next_word [] a (drop_last (d ∷ (b ++ b' ' ∷ flatten argv))) plain
    ∙ ap (λ v. v ++ tokens_from [] (drop_last (flatten ((d ∷ b) ∷ argv)))) full
    ∙ ap (λ ws. a ∷ ws) (tokens-flatten (d ∷ b) argv words)

-- The arguments of a message, none of which is empty or has a separator in it, are joined by
-- `flatten_argv` to a text whose tokens are these arguments.
pub flatten_argv-tokens :
    (a : Bytes) (argv : List Bytes)
    → AreWords (a ∷ argv)
    → option_map tokens (flatten_argv (a ∷ argv)) ≡ some (a ∷ argv)
unfolding flatten_argv tokens
flatten_argv-tokens a argv words = ap some (tokens-flatten a argv words)
