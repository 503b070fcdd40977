-- ===== src/Parse/Run.antt =====
-- The loop of `parse_message` cuts a message into its tokens.
use mathlib.Core.List.{append_assoc, append-nil}
use secoli_sced.Base.{
  Bytes, ℕ, ◌+◌, ◌<◌, ◌≤◌, ◌≡◌, refl, sym, ap, ◌∙◌, inl, inr, true, false, List, [], ◌∷◌, ◌++◌,
  some, arith, length, length-append, if◌then◌else◌, leb, Bool-cases,
}
use secoli_sced.Parse.{
  is_final, is_whitespace, store, close, State, initial, whitespace, argument, final, Parser,
  step_in, in_argument, stops, Arguments, too_many, arguments, finish,
}
use secoli_sced.Parse.Memory.{
  packed, offsets, packed-snoc, offsets-snoc, store_next, strings-packed,
}
use secoli_sced.Parse.Tokens.{flush, IsPlain, ArePlain, ArePlain-append}

-- The locals when the arguments `ws` are complete and `cur` is the one being read.
abbrev pub at : State → List Bytes → Bytes → Bytes → Parser
at s ws cur junk = record {
  state = s;
  error = false;
  argc = length ws;
  args = offsets 0 ws;
  current = length (packed ws);
  argpos = length cur;
  arg_space = packed ws ++ (cur ++ junk);
}

store_here :
    (ws : List Bytes) (cur : Bytes) (old v : ℕ) (junk : Bytes)
    → store (packed ws ++ (cur ++ old ∷ junk)) (length (packed ws) + length cur) v
      ≡ some (packed ws ++ (cur ++ v ∷ junk))
store_here ws cur old v junk =
    ap (λ m. store m (length (packed ws) + length cur) v) (sym (append_assoc (packed ws) cur _))
    ∙ store_next (packed ws ++ cur) old v junk _ (sym (length-append (packed ws) cur))
    ∙ ap some (append_assoc (packed ws) cur (v ∷ junk))

packed_closed :
    (ws : List Bytes) (cur junk : Bytes)
    → packed ws ++ (cur ++ 0 ∷ junk) ≡ packed (ws ++ cur ∷ []) ++ junk
packed_closed ws cur junk = rw (packed-snoc ws cur) (simp append_assoc)

length-packed_closed :
    (ws : List Bytes) (cur : Bytes)
    → length (packed (ws ++ cur ∷ [])) ≡ length (packed ws) + length cur + 1
length-packed_closed ws cur =
    rw (packed-snoc ws cur)
      (omega (arith, length-append (packed ws) (cur ++ 0 ∷ []), length-append cur (0 ∷ [])))

pub close-at :
    (next s : State) (ws : List Bytes) (cur : Bytes) (old : ℕ) (junk : Bytes)
    → length ws < 29
    → close next (at s ws cur (old ∷ junk)) ≡ some (at next (ws ++ cur ∷ []) [] junk)
unfolding close
close-at next s ws cur old junk h = ground (
  arith,
  store_here ws cur old 0 junk,
  packed_closed ws cur junk,
  offsets-snoc 0 ws cur,
  length-packed_closed ws cur,
  length-append ws (cur ∷ []),
)

pub close-error :
    (next s : State) (ws : List Bytes) (cur junk : Bytes)
    → 29 ≤ length ws
    → close next (at s ws cur junk)
      ≡ some (record (at s ws cur junk) { error = true; state = next })
unfolding close
close-error next s ws cur junk h = ground arith

pub in_argument-plain :
    (ws : List Bytes) (cur : Bytes) (c old : ℕ) (junk : Bytes)
    → is_final c ≡ false
    → is_whitespace c ≡ false
    → in_argument (at argument ws cur (old ∷ junk)) c ≡ some (at argument ws (cur ++ c ∷ []) junk)
unfolding in_argument
in_argument-plain ws cur c old junk f w = ground (
  arith,
  store_here ws cur old c junk,
  append_assoc cur (c ∷ []) junk,
  length-append cur (c ∷ []),
)

-- No argument is being read in ST_INITIAL and ST_WHITESPACE, and a non-empty one in ST_ARGUMENT.
abbrev pub Fits : State → Bytes → Type 0
Fits initial [] = Unit {0}
Fits whitespace [] = Unit {0}
Fits argument (c ∷ cs) = Unit {0}
Fits _ _ = ⊥

-- The outcome for a message whose tokens are `ws`: at most 29 arguments are accepted.
abbrev pub outcome : List Bytes → Arguments
outcome ws = if leb (length ws) 29 then arguments ws else too_many

finish-at :
    (ws : List Bytes) (junk : Bytes)
    → ArePlain ws
    → length ws ≤ 29
    → finish (some (at final ws [] junk)) ≡ outcome ws
finish-at ws junk p l = ground (arith, strings-packed [] ws junk 0 refl p)

final-whitespace : (c : ℕ) → is_final c ≡ true → is_whitespace c ≡ false
unfolding is_final is_whitespace
final-whitespace c h = ground arith

pub outcome_too_many :
    (ws us : List Bytes) (w : Bytes) → 29 ≤ length ws → outcome (ws ++ w ∷ us) ≡ too_many
outcome_too_many ws us w h = ground (arith, length-append ws (w ∷ us))

pub few_lt : (n : ℕ) → leb 29 n ≡ false → n < 29
few_lt n h = ground arith

-- A final byte ends the loop, and the last argument if one is being read.
pub step_in-final :
    (s : State) (ws : List Bytes) (cur : Bytes) (c old : ℕ) (junk : Bytes)
    → Fits s cur
    → ArePlain ws
    → IsPlain cur
    → length ws ≤ 29
    → is_final c ≡ true
    → (p : Parser) × (step_in s (at s ws cur (old ∷ junk)) c ≡ some p)
      × (stops p ≡ true)
      × (finish (some p) ≡ outcome (ws ++ flush cur))
unfolding step_in flush
step_in-final initial ws [] c old junk fits p q l f = (
  at final ws [] (old ∷ junk),
  ground (arith, final-whitespace c f),
  refl,
  finish-at ws (old ∷ junk) p l ∙ ap outcome (sym (append-nil ws)),
)
step_in-final whitespace ws [] c old junk fits p q l f = (
  at final ws [] (old ∷ junk),
  ground (arith, final-whitespace c f),
  refl,
  finish-at ws (old ∷ junk) p l ∙ ap outcome (sym (append-nil ws)),
)
step_in-final argument ws (d ∷ ds) c old junk fits p q l f =
    elim (Bool-cases (leb 29 (length ws))) [
      | inl many ↦ (
        record (at argument ws (d ∷ ds) (old ∷ junk)) { error = true; state = final },
        rw (f, in_argument) (close-error final argument ws (d ∷ ds) (old ∷ junk) (ground arith)),
        refl,
        sym (outcome_too_many ws [] (d ∷ ds) (ground arith)),
      )
      | inr few ↦ (
        at final (ws ++ (d ∷ ds) ∷ []) [] junk,
        rw (f, in_argument) (close-at final argument ws (d ∷ ds) old junk (ground arith)),
        refl,
        finish-at (ws ++ (d ∷ ds) ∷ []) junk (ArePlain-append ws _ p (q, tt))
            (omega (arith, length-append ws ((d ∷ ds) ∷ []), few_lt (length ws) few)),
      )
    ]
step_in-final initial ws (d ∷ ds) c old junk fits p q l f = elim fits [ ]
step_in-final whitespace ws (d ∷ ds) c old junk fits p q l f = elim fits [ ]
step_in-final argument ws [] c old junk fits p q l f = elim fits [ ]
step_in-final final ws cur c old junk fits p q l f = elim fits [ ]
