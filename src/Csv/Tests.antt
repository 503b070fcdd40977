-- ===== src/Csv/Tests.antt =====
-- Three results in a queue, and the theorems at them.
use secoli_sced.Base.{
  codes, ◌≡◌, refl, true, List, [], ◌∷◌, ◌++◌, reverse, map, some, ℕ, pos, arith,
}
use secoli_sced.Clib.{decimal, decimal_int}
use secoli_sced.Csv.Lines.{texts, found_any, print_results-texts}
use secoli_sced.Csv.{print_results}
use secoli_sced.Queue.Glib.{list_queue}
use secoli_sced.Queue.Holds.{holds}
use secoli_sced.Queue.{Queue}

abbrev results : List ℕ
results = 7 ∷ 40 ∷ []

abbrev queue : Queue (list_queue ℕ)
queue = record { queue = map some (reverse results); position = pos 0 }

print_results-texts_example :
    ((print_results (list_queue ℕ) (λ n. some (decimal n)) true (some queue)).0
      ≡ found_any (pos 0) (texts (λ n. some (decimal n)) results))
    × ((print_results (list_queue ℕ) (λ n. some (decimal n)) true (some queue)).1
        ≡ (decimal_int (pos 2) ++ codes "\n") ∷ texts (λ n. some (decimal n)) results)
print_results-texts_example =
    print_results-texts (list_queue ℕ) (λ n. some (decimal n)) results (some queue) (pos 0)
      (holds refl refl (omega arith) (omega arith))
