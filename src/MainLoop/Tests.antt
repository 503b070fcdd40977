-- ===== src/MainLoop/Tests.antt =====
-- Three rounds, and the theorem at them.
use secoli_sced.Base.{◌*◌, ◌-◌, ◌≡◌, refl, ℤ, pos, negsuc, List, [], ◌∷◌, map, arith}
use secoli_sced.MainLoop.Polling.{alarms, shown, micros, do_main_loop-alarms}
use secoli_sced.MainLoop.{Time, initial, do_main_loop}

abbrev times_million : ℤ → ℤ
times_million (pos n) = pos (n * 1000000)
times_million (negsuc n) = negsuc n

abbrev first : Time
first = record { tv_sec = 1; tv_usec = 999990 }

abbrev times : List Time
times =
    record { tv_sec = 2; tv_usec = 0 }
    ∷ record { tv_sec = 2; tv_usec = 31250 }
    ∷ record { tv_sec = 2; tv_usec = 31251 }
    ∷ []

do_main_loop-alarms_example :
    map shown (do_main_loop times_million (initial first) times)
    ≡ alarms (micros first - 31250) times
do_main_loop-alarms_example =
    do_main_loop-alarms times_million first times (omega arith) (omega arith) (λ n h. refl)
