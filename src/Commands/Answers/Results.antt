-- ===== src/Commands/Answers/Results.antt =====
-- The results of a search are answered.
use secoli_sced.Action.{pure, fault, unless_null, ◌>>=◌, ◌>>◌}
use secoli_sced.Base.{
  Bytes, ◌≡◌, refl, ◌∙◌, Bool, Bool-cases, inl, inr, false, List, [], ◌∷◌, ◌++◌, Option, none, some,
  Option-cases, ℤ, pos, minus_one, ltb_ℤ, if◌then◌else◌,
}
use secoli_sced.Client.{Client, client_get_output_handler}
use secoli_sced.Clib.{snprintf}
use secoli_sced.Commands.Answers.Printed.{
  Prints, MayPrint, faults, prints, JsonPrints, run_dumper-Prints,
}
use secoli_sced.Commands.Answers.{
  Answered, speaks, fails, leaves, ends, IsAnswered, bind-IsAnswered, if-IsAnswered,
  unless_null-IsAnswered, spoken, change-IsAnswered,
}
use secoli_sced.Commands.Finding.{
  client_run_output_handler, destroy_search, print_search_result, run_dumper,
}
use secoli_sced.Commands.Keeping.{destroy_search-IsKept}
use secoli_sced.Search.{Search, Glib}
use mathlib.Core.List.{append_assoc}
use secoli_sced.World.Kept.{keeps, Kept, kept, Ends, IsKept}
use secoli_sced.World.{
  World, Host, SessionArg, Do, print_all, sock_printf, sock_answer_undefined,
  sock_answer_unavailable,
}
use secoli_sced.Xsqlite.{Sqlite}

module _ (S : Sqlite) (G : Glib) (H : Host G) where
  pub unavailable_then-IsAnswered : (a : ℤ) → IsAnswered S G (sock_answer_unavailable S G >> pure a)
  unfolding sock_answer_unavailable
  unavailable_then-IsAnswered a = search spoken

  pub undefined_then-IsAnswered : (a : ℤ) → IsAnswered S G (sock_answer_undefined S G >> pure a)
  unfolding sock_answer_undefined
  undefined_then-IsAnswered a = search spoken

  pub ruleset replies = (spoken, unavailable_then-IsAnswered, undefined_then-IsAnswered)

  -- What stands behind the dumper in `print_search_result`.
  abbrev conclude : SessionArg G → ℤ → Do S G ℤ
  conclude s result =
      destroy_search S G H s
      >> (if ltb_ℤ (pos 0) result
          then pure (pos 0)
          else (sock_answer_undefined S G >> pure (pos 0)))

  conclude-IsKept : (s : SessionArg G) (result : ℤ) → IsKept S G (conclude s result)
  conclude-IsKept s result = search (keeps, destroy_search-IsKept) depth 14

  conclude-IsAnswered :
      (s : SessionArg G) (result : ℤ)
      → ltb_ℤ (pos 0) result ≡ false
      → IsAnswered S G (conclude s result)
  conclude-IsAnswered s result e = rw e (
      bind-IsAnswered S G _ _ (destroy_search-IsKept S G H s)
        λ _. undefined_then-IsAnswered (pos 0))

  -- A line, and what keeps it sent.
  line_then-IsAnswered :
      (line : Bytes) (m : Do S G ℤ) → IsKept S G m → IsAnswered S G (sock_printf S G line >> m)
  unfolding ◌>>=◌ sock_printf
  line_then-IsAnswered line m k = record {
    at = λ w s.
        let w1 = record w { sent = w.sent ++ snprintf 8192 line ∷ [] } in
        go w w1 refl (m w1) (k.at w1);
  }
    where
      go :
          (w w1 : World G S)
          → w1.sent ≡ w.sent ++ snprintf 8192 line ∷ []
          → (r : Option (ℤ × World G S)) → Ends S G (λ a w2. Kept S G w1 w2) r
          → Ends S G (λ a w2. Answered S G a w w2) r
      go w w1 e none h = tt
      go w w1 e (some (a, w2)) (kept u s m x ls t) =
          speaks (snprintf 8192 line) ls
            (t ∙ rw e (append_assoc w.sent (snprintf 8192 line ∷ []) ls))

  printed-IsAnswered :
      (s : SessionArg G) (result : ℤ) (lines : List Bytes)
      → Prints result lines
      → IsAnswered S G (print_all S G lines >> pure result >>= conclude s)
  unfolding ◌>>=◌ print_all
  printed-IsAnswered s result [] h = elim (Bool-cases (ltb_ℤ (pos 0) result)) [
    | inl e ↦ absurd (h e refl)
    | inr e ↦ record { at = (conclude-IsAnswered s result e).at }
  ]
  printed-IsAnswered s result (line ∷ lines) h =
      let rest : IsKept S G (print_all S G lines >> pure result >>= conclude s) =
        search (keeps, conclude-IsKept) depth 14 in
      record {
        at =
            (line_then-IsAnswered line (print_all S G lines >> pure result >>= conclude s) rest).at;
      }

  dumped-IsAnswered :
      (s : SessionArg G) (r : Option (ℤ × List Bytes × Search G))
      → MayPrint r
      → IsAnswered S G (
          unless_null r fault (λ (result, lines, q). print_all S G lines >> pure result)
          >>= conclude s)
  unfolding ◌>>=◌ unless_null
  dumped-IsAnswered s none faults = record { at = λ w k. tt }
  dumped-IsAnswered s (some p) (prints result lines q h) = record {
    at = (printed-IsAnswered s result lines h).at;
  }

  module _ (j : (c : Client G) → JsonPrints S G H c) where
    run-IsAnswered :
        (s : SessionArg G) (q : Search G) (count : Bool)
        → IsAnswered S G (client_run_output_handler S G H q count >>= conclude s)
    unfolding client_run_output_handler ◌>>=◌ unless_null
    run-IsAnswered s q count = record {
      at = λ w k. elim (Option-cases (client_get_output_handler G (some w.client))) [
        | inl e ↦ rw e ((conclude-IsAnswered s minus_one refl).at w k)
        | inr (oh, e) ↦ rw e (
            (dumped-IsAnswered s (run_dumper S G H w.client oh.format q count)
                (run_dumper-Prints S G H w.client (j w.client) oh.format q count)).at
              w k)
      ];
    }

    pub print_result-IsAnswered :
        (s : SessionArg G) (count : Bool) → IsAnswered S G (print_search_result S G H s count)
    unfolding print_search_result
    print_result-IsAnswered s count = search (replies, keeps, run-IsAnswered) depth 20
