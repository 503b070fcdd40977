-- ===== src/MainLoop/Polling.antt =====
-- The clients are served each time that 31250 microseconds have passed.
use secoli_sced.Base.{
  ℕ, ◌+◌, ◌-◌, ◌*◌, ◌≤◌, ◌<◌, ◌≡◌, refl, ap, Bool, true, false, Bool-cases, inl, inr, none, some,
  if◌then◌else◌, ltb, ℤ, pos, negsuc, sub_ℕ, ◌||◌, ltb_ℤ, ◌+ℤ◌, ◌-ℤ◌, is_neg, List, [], ◌∷◌, map,
  arith,
}
use mathlib.Core.Path.{ap₂}
use secoli_sced.Clib.{int_of}
use secoli_sced.MainLoop.{
  Time, Loop, Round, most_seconds, initial, time_passed, run_round, do_main_loop,
}

abbrev pub micros : Time → ℕ
micros t = t.tv_sec * 1000000 + t.tv_usec

-- Whether a round serves the clients, and how long it sleeps.
abbrev pub shown : Round → Bool × ℤ
shown r = (elim r.served [ none ↦ false | some d ↦ true ], r.sleeptime)

-- A clock that rings when more than 31250 microseconds have passed `since` it rang.
unfoldable pub alarms : ℕ → List Time → List (Bool × ℤ)
alarms since [] = []
alarms since (t ∷ ts) =
    let rings = ltb (since + 31250) (micros t) in
    let since' = if rings then micros t else since in
    (rings, pos (since' + 31250 - micros t)) ∷ alarms since' ts

-- No time is before the one in front of it, or too far behind it.
abbrev pub Advances : Time → List Time → Type 0
Advances t [] = t.tv_usec < 1000000
Advances t (t' ∷ ts) =
    (t.tv_usec < 1000000)
    × (micros t ≤ micros t')
    × (t'.tv_sec ≤ t.tv_sec + 9000000000)
    × Advances t' ts

sub_ℕ-pos : (a b : ℕ) → b ≤ a → sub_ℕ a b ≡ pos (a - b)
sub_ℕ-pos a b h = ground arith

few :
    (d : ℕ) → d ≤ 9000000000 → (ltb_ℤ (pos most_seconds) (pos d +ℤ pos 1) || is_neg (pos d)) ≡ false
few d h = ground arith

sum-micros :
    (s s' u u' : ℕ)
    → s ≤ s'
    → s * 1000000 + u ≤ s' * 1000000 + u'
    → pos ((s' - s) * 1000000) +ℤ sub_ℕ u' u ≡ pos (s' * 1000000 + u' - (s * 1000000 + u))
sum-micros s s' u u' h m = ground arith

lag_later : (a b c : ℕ) → a ≤ b → sub_ℕ a c +ℤ pos (b - a) ≡ sub_ℕ b c
lag_later a b c h = ground arith

rings-eq : (b c : ℕ) → ltb_ℤ (pos 0) (sub_ℕ b c) ≡ ltb c b
rings-eq b c = ground arith

sleep_left : (b c : ℕ) → b ≤ c → c ≤ b + 31250 → int_of (pos 0 -ℤ sub_ℕ b c) ≡ pos (c - b)
sleep_left b c h k = ground arith

rung : (b : ℕ) → negsuc 31249 ≡ sub_ℕ b (b + 31250)
rung b = ground arith

not_later : (a b : ℕ) → ltb a b ≡ false → b ≤ a
not_later a b h = ground arith

-- What the loop keeps: it has served the clients at the time `since`, in microseconds.
record IsTimed (since : ℕ) (loop : Loop) : Type 0 where
  served_before : since ≤ micros loop.t
  none_missed : micros loop.t ≤ since + 31250
  lag_left : loop.process_lag ≡ sub_ℕ (micros loop.t) (since + 31250)

no_lag : (b : ℕ) → 31250 ≤ b → pos 0 ≡ sub_ℕ b (b - 31250 + 31250)
no_lag b h = ground arith

first_usec : (t : Time) (ts : List Time) → Advances t ts → t.tv_usec < 1000000
first_usec t [] a = a
first_usec t (t' ∷ ts) a = a.0

moved : {t t' : Time} (ts : List Time) → t' ≡ t → Advances t ts → Advances t' ts
moved ts e a = rw (e, Advances) a

module _ (times_million : ℤ → ℤ) where
  time_passed-micros :
      (t t' : Time)
      → t.tv_usec < 1000000
      → t'.tv_usec < 1000000
      → micros t ≤ micros t'
      → t'.tv_sec ≤ t.tv_sec + 9000000000
      → times_million (pos (t'.tv_sec - t.tv_sec)) ≡ pos ((t'.tv_sec - t.tv_sec) * 1000000)
      → time_passed times_million t t' ≡ (pos (micros t' - micros t), false)
  unfolding time_passed
  time_passed-micros t t' u u' m far e =
      let later : t.tv_sec ≤ t'.tv_sec = omega arith in
      let seconds = sub_ℕ-pos t'.tv_sec t.tv_sec later in
      let near : t'.tv_sec - t.tv_sec ≤ 9000000000 = omega arith in
      rw (seconds, few (t'.tv_sec - t.tv_sec) near, e)
        (ap (λ z. (z, false)) (sum-micros t.tv_sec t'.tv_sec t.tv_usec t'.tv_usec later m))

  -- What a round makes of the time, once it is known.
  ShownRound : ℕ → Time → Round × Loop → Type 0
  ShownRound since t (r, loop) =
      let rings = ltb (since + 31250) (micros t) in
      let since' = if rings then micros t else since in
      (shown r ≡ (rings, pos (since' + 31250 - micros t))) × (loop.t ≡ t) × IsTimed since' loop

  run_round-shown :
      (since : ℕ) (loop : Loop) (t : Time)
      → IsTimed since loop
      → micros loop.t ≤ micros t
      → time_passed times_million loop.t t ≡ (pos (micros t - micros loop.t), false)
      → ShownRound since t (run_round times_million loop t)
  unfolding run_round ShownRound
  run_round-shown since loop t i m e =
      rw
        (
          e,
          i.lag_left,
          lag_later (micros loop.t) (micros t) (since + 31250) m,
          rings-eq (micros t) (since + 31250),
        )
        (elim (Bool-cases (ltb (since + 31250) (micros t))) [
          | inl r ↦ rw r (
            ap (λ n. (true, pos n)) (omega arith),
            refl,
            record {
              served_before = omega arith;
              none_missed = omega arith;
              lag_left = rung (micros t);
            },
          )
          | inr r ↦ rw r (
            ap (λ z. (false, z))
                (sleep_left (micros t) (since + 31250) (not_later (since + 31250) (micros t) r)
                  (omega (arith, i.served_before))),
            refl,
            record {
              served_before = omega (arith, i.served_before);
              none_missed = not_later (since + 31250) (micros t) r;
              lag_left = refl;
            },
          )
        ])

  do_main_loop-timed :
      (since : ℕ) (loop : Loop) (ts : List Time)
      → IsTimed since loop
      → Advances loop.t ts
      → ((n : ℕ) → n ≤ 9000000000 → times_million (pos n) ≡ pos (n * 1000000))
      → map shown (do_main_loop times_million loop ts) ≡ alarms since ts
  unfolding do_main_loop alarms ShownRound
  do_main_loop-timed since loop [] i a exact = refl
  do_main_loop-timed since loop (t ∷ ts) i (u, m, far, more) exact =
      let passed =
        time_passed-micros loop.t t u (first_usec t ts more) m far (exact _ (omega arith)) in
      let (now, same, i') = run_round-shown since loop t i m passed in
      let since' = if ltb (since + 31250) (micros t) then micros t else since in
      let rest =
        do_main_loop-timed since' (run_round times_million loop t).1 ts i' (moved ts same more)
          exact in
      ap₂ ◌∷◌ now rest

  -- From a first time of at least 31250 microseconds on, while no time is before the one in front
  -- of it or more than 9 * 10^9 seconds behind it, and products by 1e6 up to there are exact: a round
  -- serves the clients exactly when more than 31250 microseconds have passed since the last one
  -- that has, and it sleeps for what is left until then. The loop starts as if one had 31250
  -- microseconds before the first time.
  pub do_main_loop-alarms :
      (t : Time) (ts : List Time)
      → 31250 ≤ micros t
      → Advances t ts
      → ((n : ℕ) → n ≤ 9000000000 → times_million (pos n) ≡ pos (n * 1000000))
      → map shown (do_main_loop times_million (initial t) ts) ≡ alarms (micros t - 31250) ts
  do_main_loop-alarms t ts h a exact =
      do_main_loop-timed _ (initial t) ts
        (record {
          served_before = omega arith;
          none_missed = omega arith;
          lag_left = no_lag (micros t) h;
        })
        a exact
