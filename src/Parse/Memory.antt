-- ===== src/Parse/Memory.antt =====
-- The layout of `arg_space`: the arguments so far, each with its NUL, and reading them back.
use mathlib.Core.List.{append_assoc}
use mathlib.Core.Path.{ap₂, subst}
use secoli_sced.Base.{
  Bytes, ℕ, ◌+◌, ◌<◌, ◌≡◌, refl, sym, ap, ◌∙◌, List, [], ◌∷◌, ◌++◌, map, some, arith, length,
  length-append, set, drop, lt→ltb,
}
use secoli_sced.Parse.{is_final, store, string_from, string_at}
use secoli_sced.Parse.Tokens.{IsPlain, ArePlain}

-- The arguments as they stand in memory.
abbrev pub packed : List Bytes → Bytes
packed [] = []
packed (w ∷ ws) = w ++ (0 ∷ packed ws)

-- Their offsets, if the first stands at `n`.
abbrev pub offsets : ℕ → List Bytes → List ℕ
offsets n [] = []
offsets n (w ∷ ws) = n ∷ offsets (n + length w + 1) ws

pub packed-snoc : (ws : List Bytes) (w : Bytes) → packed (ws ++ w ∷ []) ≡ packed ws ++ (w ++ 0 ∷ [])
packed-snoc [] w = refl
packed-snoc (v ∷ ws) w = rw (packed-snoc ws w) (sym (append_assoc v (0 ∷ packed ws) (w ++ 0 ∷ [])))

pub offsets-snoc :
    (n : ℕ) (ws : List Bytes) (w : Bytes)
    → offsets n (ws ++ w ∷ []) ≡ offsets n ws ++ (n + length (packed ws)) ∷ []
offsets-snoc n [] w = ap (λ m. m ∷ []) (omega arith)
offsets-snoc n (v ∷ ws) w =
    let at : n + length v + 1 + length (packed ws) ≡ n + length (v ++ (0 ∷ packed ws)) =
      omega (arith, length-append v (0 ∷ packed ws)) in
    rw (offsets-snoc (n + length v + 1) ws w, at)

-- A write just behind what is written extends it.
pub store_next :
    (written : Bytes) (old v : ℕ) (junk : Bytes) (i : ℕ)
    → i ≡ length written
    → store (written ++ old ∷ junk) i v ≡ some (written ++ v ∷ junk)
unfolding store
store_next written old v junk i e =
    let inside : length written < length (written ++ old ∷ junk) =
      omega (arith, length-append written (old ∷ junk)) in
    rw e (rw (lt→ltb _ _ inside) (ap some (set_here written)))
  where
    set_here : (w : Bytes) → set (w ++ old ∷ junk) (length w) v ≡ w ++ v ∷ junk
    set_here [] = refl
    set_here (x ∷ w) = ap (◌∷◌ x) (set_here w)

drop-append : (n : ℕ) (a b : Bytes) → n ≡ length a → drop n (a ++ b) ≡ b
drop-append n a b e = rw e (go a)
  where
    go : (w : Bytes) → drop (length w) (w ++ b) ≡ b
    go [] = refl
    go (x ∷ w) = go w

string_from-IsPlain : (w rest : Bytes) → IsPlain w → string_from (w ++ (0 ∷ rest)) ≡ w
unfolding string_from is_final
string_from-IsPlain [] rest p = refl
string_from-IsPlain (c ∷ w) rest p = ground (arith, string_from-IsPlain w rest p.2)

-- Each argument is read back from its offset.
pub strings-packed :
    (pre : Bytes) (ws : List Bytes) (junk : Bytes) (n : ℕ)
    → n ≡ length pre
    → ArePlain ws
    → map (string_at (pre ++ (packed ws ++ junk))) (offsets n ws) ≡ ws
strings-packed pre [] junk n e p = refl
strings-packed pre (w ∷ ws) junk n e p =
    let here : (w ++ (0 ∷ packed ws)) ++ junk ≡ w ++ (0 ∷ (packed ws ++ junk)) =
      append_assoc w (0 ∷ packed ws) junk in
    let apart : pre ++ (w ++ (0 ∷ (packed ws ++ junk)))
        ≡ (pre ++ (w ++ 0 ∷ [])) ++ (packed ws ++ junk) =
      simp append_assoc in
    let next : n + length w + 1 ≡ length (pre ++ (w ++ 0 ∷ [])) =
      omega (arith, length-append pre (w ++ 0 ∷ []), length-append w (0 ∷ [])) in
    ap₂ ◌∷◌
      (ap string_from (drop-append n pre _ e)
        ∙ ap string_from here
        ∙ string_from-IsPlain w (packed ws ++ junk) p.0)
      (subst (λ m. map (string_at m) (offsets (n + length w + 1) ws) ≡ ws)
        (sym (ap (◌++◌ pre) here ∙ apart))
        (strings-packed (pre ++ (w ++ 0 ∷ [])) ws junk (n + length w + 1) next p.1))
