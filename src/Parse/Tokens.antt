-- ===== src/Parse/Tokens.antt =====
-- What the arguments of a message are: its maximal runs of bytes that are neither whitespace nor
-- final, up to the first final byte or the end.
use secoli_sced.Base.{Bytes, ◌≡◌, false, List, [], ◌∷◌, ◌++◌, if◌then◌else◌}
use secoli_sced.Parse.{is_whitespace, is_final}

unfoldable pub flush : Bytes → List Bytes
flush [] = []
flush (c ∷ cs) = (c ∷ cs) ∷ []

-- The tokens of a message whose first bytes, `cur`, belong to a token.
unfoldable pub tokens_from : Bytes → Bytes → List Bytes
tokens_from cur [] = flush cur
tokens_from cur (c ∷ str) =
    let here = flush cur ++ tokens_from [] str in
    let longer = tokens_from (cur ++ c ∷ []) str in
    if is_final c then flush cur else if is_whitespace c then here else longer

unfoldable pub tokens : Bytes → List Bytes
tokens = tokens_from []

-- A byte that can stand in an argument.
abbrev pub IsPlain : Bytes → Type 0
IsPlain [] = Unit {0}
IsPlain (c ∷ cs) = (is_final c ≡ false) × (is_whitespace c ≡ false) × IsPlain cs

abbrev pub ArePlain : List Bytes → Type 0
ArePlain [] = Unit {0}
ArePlain (w ∷ ws) = IsPlain w × ArePlain ws

pub IsPlain-append : (a b : Bytes) → IsPlain a → IsPlain b → IsPlain (a ++ b)
IsPlain-append [] b p q = q
IsPlain-append (c ∷ a) b p q = (p.0, p.1, IsPlain-append a b p.2 q)

pub ArePlain-append : (a b : List Bytes) → ArePlain a → ArePlain b → ArePlain (a ++ b)
ArePlain-append [] b p q = q
ArePlain-append (w ∷ a) b p q = (p.0, ArePlain-append a b p.1 q)
