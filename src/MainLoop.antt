-- ===== src/MainLoop.antt =====
-- src/main.c: when do_main_loop serves the clients. What is done then is in other files; signals
-- are not modelled.
pub mod Polling
mod Tests
use secoli_sced.Base.{
  ℕ, ◌+◌, ◌*◌, Bool, true, false, ◌||◌, Option, none, some, if◌then◌else◌, ltb, ℤ, pos, negsuc,
  is_neg, ◌+ℤ◌, ◌-ℤ◌, sub_ℕ, ltb_ℤ, List, [], ◌∷◌,
}
use secoli_sced.Clib.{int_of}

-- `struct timeval`
pub record Time : Type 0 where
  pub tv_sec : ℕ
  pub tv_usec : ℕ

-- `t` and `process_lag` between two rounds.
pub record Loop : Type 0 where
  pub t : Time
  pub process_lag : ℤ

-- The clients are served, with what clients_check_timeouts is told has passed, and `sleeptime`.
pub record Round : Type 0 where
  pub served : Option ℤ
  pub sleeptime : ℤ

-- LONG_MAX / 1e6, without its fraction
abbrev pub most_seconds : ℕ
most_seconds = 9223372036854

-- The first time is read before the loop.
abbrev pub initial : Time → Loop
initial t = record { t = t; process_lag = pos 0 }

-- `(long) (n * 1e6)` is `times_million n`: a double may have to round it.
module _ (times_million : ℤ → ℤ) where
  -- `t_diff` at last, and whether `process_lag` is set to 1.
  unfoldable pub time_passed : Time → Time → ℤ × Bool
  time_passed last_t t =
      let t_diff = sub_ℕ t.tv_sec last_t.tv_sec in
      if ltb_ℤ (pos most_seconds) (t_diff +ℤ pos 1) || is_neg t_diff
      then (pos 0, true)
      else (times_million t_diff +ℤ sub_ℕ t.tv_usec last_t.tv_usec, false)

  -- `now` is what gettimeofday returns. 1e6 / PROCESS_FREQ is 31250.
  unfoldable pub run_round : Loop → Time → Round × Loop
  unfolding time_passed
  run_round loop now =
      let (t_diff, overflow) = time_passed loop.t now in
      let lag = (if overflow then pos 1 else loop.process_lag) +ℤ t_diff in
      let serves = ltb_ℤ (pos 0) lag in
      let process_lag = if serves then negsuc 31249 else lag in
      (
        record {
          served = if serves then some t_diff else none;
          sleeptime = int_of (pos 0 -ℤ process_lag);
        },
        record { t = now; process_lag = process_lag },
      )

  -- The rounds for what gettimeofday returns in turn.
  unfoldable pub do_main_loop : Loop → List Time → List Round
  do_main_loop loop [] = []
  do_main_loop loop (now ∷ times) =
      let (r, loop') = run_round loop now in r ∷ do_main_loop loop' times
