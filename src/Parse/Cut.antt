-- ===== src/Parse/Cut.antt =====
-- `parse_message` cuts a message into its tokens.
use mathlib.Core.List.{append_assoc}
use secoli_sced.Base.{
  Bytes, ℕ, ◌+◌, ◌<◌, ◌≤◌, ◌≡◌, refl, sym, ap, ◌∙◌, ◌⊎◌, inl, inr, true, false, List, [], ◌∷◌, ◌++◌,
  some, arith, length, length-append, leb, Bool-cases,
}
use secoli_sced.Parse.{
  is_final, is_whitespace, State, initial, whitespace, argument, final, Parser, step_in,
  in_argument, stops, run, too_many, finish, parse_arguments,
}
use secoli_sced.Parse.Run.{
  at, Fits, outcome, outcome_too_many, few_lt, step_in-final, close-at, close-error,
  in_argument-plain,
}
use secoli_sced.Parse.Tokens.{
  flush, tokens_from, tokens, IsPlain, ArePlain, IsPlain-append, ArePlain-append,
}

run-step :
    (p p' : Parser) (c : ℕ) (str : Bytes)
    → step_in p.state p c ≡ some p'
    → stops p' ≡ false
    → run p (c ∷ str) ≡ run p' str
run-step p p' c str e s = unfold run in rw (e, run) (rw s)

run-stop :
    (p p' : Parser) (c : ℕ) (str : Bytes)
    → step_in p.state p c ≡ some p'
    → stops p' ≡ true
    → run p (c ∷ str) ≡ some p'
run-stop p p' c str e s = unfold run in rw (e, run) (rw s)

-- Whitespace between arguments is passed over.
step_in-space :
    (s : State) (ws : List Bytes) (c : ℕ) (junk : Bytes)
    → Fits s []
    → is_whitespace c ≡ true
    → (step_in s (at s ws [] junk) c ≡ some (at s ws [] junk)) × (stops (at s ws [] junk) ≡ false)
unfolding step_in
step_in-space initial ws c junk fits w = (rw w, refl)
step_in-space whitespace ws c junk fits w = (rw w, refl)
step_in-space argument ws c junk fits w = elim fits [ ]
step_in-space final ws c junk fits w = elim fits [ ]

-- Any other byte goes to the argument.
step_in-plain :
    (s : State) (ws : List Bytes) (cur : Bytes) (c old : ℕ) (junk : Bytes)
    → Fits s cur
    → is_final c ≡ false
    → is_whitespace c ≡ false
    → step_in s (at s ws cur (old ∷ junk)) c ≡ some (at argument ws (cur ++ c ∷ []) junk)
unfolding step_in
step_in-plain initial ws [] c old junk fits f w =
    ground (arith, in_argument-plain ws [] c old junk f w)
step_in-plain whitespace ws [] c old junk fits f w =
    ground (arith, in_argument-plain ws [] c old junk f w)
step_in-plain argument ws cur c old junk fits f w = in_argument-plain ws cur c old junk f w
step_in-plain initial ws (d ∷ ds) c old junk fits f w = elim fits [ ]
step_in-plain whitespace ws (d ∷ ds) c old junk fits f w = elim fits [ ]
step_in-plain final ws cur c old junk fits f w = elim fits [ ]

-- Whitespace behind an argument ends it, if there is room for one more, and else is an error.
end_argument :
    (ws : List Bytes) (cur : Bytes) (c old : ℕ) (junk str : Bytes)
    → is_final c ≡ false
    → is_whitespace c ≡ true
    → length ws < 29
    → run (at argument ws cur (old ∷ junk)) (c ∷ str)
      ≡ run (at whitespace (ws ++ cur ∷ []) [] junk) str
end_argument ws cur c old junk str f w l =
    run-step _ _ c str
      (unfold step_in in rw (f, w, in_argument) (close-at whitespace argument ws cur old junk l))
      refl

too_many_arguments :
    (ws : List Bytes) (cur : Bytes) (c : ℕ) (junk str : Bytes)
    → is_final c ≡ false
    → is_whitespace c ≡ true
    → 29 ≤ length ws
    → finish (run (at argument ws cur junk) (c ∷ str)) ≡ too_many
too_many_arguments ws cur c junk str f w l = ap finish (
    run-stop (at argument ws cur junk)
      (record (at argument ws cur junk) { error = true; state = whitespace }) c str
      (unfold step_in in rw (f, w, in_argument) (close-error whitespace argument ws cur junk l))
      refl)

flush-argument : (s : State) (cur : Bytes) → Fits s cur → (cur ≡ []) ⊎ (s ≡ argument)
flush-argument initial [] fits = inl refl
flush-argument whitespace [] fits = inl refl
flush-argument argument (c ∷ cs) fits = inr refl
flush-argument initial (d ∷ ds) fits = elim fits [ ]
flush-argument whitespace (d ∷ ds) fits = elim fits [ ]
flush-argument argument [] fits = elim fits [ ]
flush-argument final cur fits = elim fits [ ]

Fits-plain : (cur : Bytes) (c : ℕ) → Fits argument (cur ++ c ∷ [])
Fits-plain [] c = tt
Fits-plain (d ∷ ds) c = tt

-- The claim of the loop at one state, for what is left of the message.
abbrev Cuts : Bytes → Type 0
Cuts str =
    (s : State) (ws : List Bytes) (cur junk : Bytes)
    → Fits s cur
    → ArePlain ws
    → IsPlain cur
    → length ws ≤ 29
    → length str < length junk
    → finish (run (at s ws cur junk) str) ≡ outcome (ws ++ tokens_from cur str)

space-Cuts :
    (c : ℕ) (str : Bytes) → is_final c ≡ false → is_whitespace c ≡ true → Cuts str → Cuts (c ∷ str)
unfolding tokens_from flush
space-Cuts c str f w rest s ws [] junk fits p q l m =
    let (e, stop) = step_in-space s ws c junk fits w in
    rw (f, w, tokens_from)
      (ap finish (run-step (at s ws [] junk) _ c str e stop)
        ∙ rest s ws [] junk fits p tt l (omega arith))
space-Cuts c str f w rest argument ws (d ∷ ds) [] fits p q l m = absurd (omega arith)
space-Cuts c str f w rest argument ws (d ∷ ds) (old ∷ junk) fits p q l m =
    elim (Bool-cases (leb 29 (length ws))) [
      | inl many ↦
          let full : 29 ≤ length ws = ground arith in
          rw (f, w, tokens_from)
            (too_many_arguments ws (d ∷ ds) c (old ∷ junk) str f w full
              ∙ sym (outcome_too_many ws (tokens_from [] str) (d ∷ ds) full))
      | inr few ↦
          let room = few_lt (length ws) few in
          rw (f, w, tokens_from)
            (ap finish (end_argument ws (d ∷ ds) c old junk str f w room)
              ∙ rest whitespace (ws ++ (d ∷ ds) ∷ []) [] junk tt (ArePlain-append ws _ p (q, tt)) tt
                  (omega (arith, length-append ws ((d ∷ ds) ∷ []))) (omega arith)
              ∙ ap outcome (append_assoc ws ((d ∷ ds) ∷ []) (tokens_from [] str)))
    ]
space-Cuts c str f w rest initial ws (d ∷ ds) junk fits p q l m = elim fits [ ]
space-Cuts c str f w rest whitespace ws (d ∷ ds) junk fits p q l m = elim fits [ ]
space-Cuts c str f w rest final ws (d ∷ ds) junk fits p q l m = elim fits [ ]

plain-Cuts :
    (c : ℕ) (str : Bytes) → is_final c ≡ false → is_whitespace c ≡ false → Cuts str → Cuts (c ∷ str)
unfolding tokens_from
plain-Cuts c str f w rest s ws cur [] fits p q l m = absurd (omega arith)
plain-Cuts c str f w rest s ws cur (old ∷ junk) fits p q l m =
    rw (f, w, tokens_from)
      (ap finish (
          run-step (at s ws cur (old ∷ junk)) _ c str (step_in-plain s ws cur c old junk fits f w)
            refl)
        ∙ rest argument ws (cur ++ c ∷ []) junk (Fits-plain cur c) p
            (IsPlain-append cur (c ∷ []) q (f, w, tt)) l (omega arith))

run-Cuts : (str : Bytes) → Cuts str
unfolding tokens_from
run-Cuts [] s ws cur [] fits p q l m = absurd (omega arith)
run-Cuts [] s ws cur (old ∷ junk) fits p q l m =
    let (p', e, stop, done) =
      step_in-final s ws cur 0 old junk fits p q l (unfold is_final in refl) in
    unfold run in rw e done
run-Cuts (c ∷ str) s ws cur [] fits p q l m = absurd (omega arith)
run-Cuts (c ∷ str) s ws cur (old ∷ junk) fits p q l m = elim (Bool-cases (is_final c)) [
  | inl f ↦
      let (p', e, stop, done) = step_in-final s ws cur c old junk fits p q l f in
      rw (f, tokens_from) (ap finish (run-stop (at s ws cur (old ∷ junk)) p' c str e stop) ∙ done)
  | inr f ↦ elim (Bool-cases (is_whitespace c)) [
    | inl w ↦ space-Cuts c str f w (run-Cuts str) s ws cur (old ∷ junk) fits p q l m
    | inr w ↦ plain-Cuts c str f w (run-Cuts str) s ws cur (old ∷ junk) fits p q l m
  ]
]

-- With the `strlen(str) + 1` bytes that `parse_message` allocates, whatever is in them, it writes
-- inside them only, and ends with the message's tokens as its arguments if there are at most 29,
-- and with an error if there are more.
pub parse_arguments-tokens :
    (space str : Bytes)
    → length space ≡ length str + 1
    → parse_arguments space str ≡ outcome (tokens str)
unfolding parse_arguments tokens
parse_arguments-tokens space str e =
    run-Cuts str initial [] [] space tt tt tt (omega arith) (omega arith)
