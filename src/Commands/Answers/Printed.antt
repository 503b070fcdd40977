-- ===== src/Commands/Answers/Printed.antt =====
-- Where something is found, something is printed.
use secoli_sced.Base.{
  Bytes, codes, ℕ, zero, suc, ◌≡◌, ◌≢◌, Bool, Option-cases, inl, inr, true, false, List, [], ◌∷◌,
  Option, none, some, ℤ, pos, ltb_ℤ, if◌then◌else◌, arith, length, ◌==◌,
}
use secoli_sced.Client.{Client}
use secoli_sced.Csv.{
  print_from, print_results, dumped, dump_lines, output_csv_dump_sce,
  output_csv_print_locations_with_names, output_csv_print_locations_with_zip_codes,
  output_csv_print_consular_districts, output_csv_print_consulates,
  output_csv_print_zip_code_specimina, print_search, output_csv_print, output_flat_print,
  output_void_print,
}
use secoli_sced.Commands.Finding.{run_dumper}
use secoli_sced.Csv.Lines.{print_dropped, print_line}
use secoli_sced.Output.{Format, csv, flat, json, void_format}
use secoli_sced.Queue.Glib.{GQueue}
use secoli_sced.Queue.{Queue, queue_pop}
use secoli_sced.Search.{Search, Glib}
use secoli_sced.World.{Host}
use secoli_sced.Xsqlite.{Sqlite}

-- `found` says that there is a line.
abbrev pub Prints : ℤ → List Bytes → Type 0
Prints found lines = ltb_ℤ (pos 0) found ≡ true → lines ≢ []

module _ {T : Type 0} (G : GQueue T) (line : T → Option Bytes) where
  print_from-Prints :
      (fuel : ℕ) (q : Option (Queue G))
      → Prints (print_from G line fuel (pos 0) q).0 (print_from G line fuel (pos 0) q).1
  unfolding print_from
  print_from-Prints zero q = λ h. ground arith
  print_from-Prints (suc fuel) q = elim (Option-cases (queue_pop G q).0) [
    | inl e ↦ rw (print_from, e) (λ h. ground arith)
    | inr (x, e) ↦ elim (Option-cases (line x)) [
      | inl n ↦
          rw (print_dropped G line fuel (pos 0) q x e n) (print_from-Prints fuel (queue_pop G q).1)
      | inr (t, n) ↦ rw (print_line G line fuel (pos 0) q x t e n) (λ h u. cc u)
    ]
  ]

  print_results-Prints :
      (count : Bool) (q : Option (Queue G))
      → Prints (print_results G line count q).0 (print_results G line count q).1
  unfolding print_results
  print_results-Prints true q = λ h u. cc u
  print_results-Prints false q = print_from-Prints _ q

-- The same of a function that may fault.
pub data MayPrint {A : Type 0} : Option (ℤ × List Bytes × A) → Type 0 where
  faults : MayPrint none
  prints :
      (found : ℤ) (lines : List Bytes) (q : A)
      → Prints found lines
      → MayPrint (some (found, lines, q))

-- The number in front, if it is wanted, and the lines.
dump_case :
    (count : Bool) (number : Bytes) (lines : List Bytes)
    → Prints (if length lines == 0 then pos 0 else pos 1) (if count then number ∷ lines else lines)
dump_case true number lines = λ h u. cc u
dump_case false number [] = λ h. ground arith
dump_case false number (l ∷ ls) = λ h u. cc u

nothing : Prints (pos 0) []
nothing = λ h. ground arith

module _ (S : Sqlite) (G : Glib) (H : Host G) (c : Client G) where
  dump-Prints :
      (q : Search G) (count : Bool) (delimiter : Bytes)
      → MayPrint (output_csv_dump_sce H.iconv G c q count delimiter)
  unfolding output_csv_dump_sce
  dump-Prints q count delimiter =
      elim (Option-cases (dumped H.iconv G c q.sce_dump q.sce_dump_count)) [
        | inl e ↦ rw (output_csv_dump_sce, e) faults
        | inr (locs, e) ↦ elim (Option-cases (dump_lines H.iconv G c delimiter locs)) [
          | inl n ↦ rw (output_csv_dump_sce, e, n) faults
          | inr (lines, n) ↦ rw (output_csv_dump_sce, e, n) (prints _ _ q (dump_case count _ lines))
        ]
      ]

  if-MayPrint :
      {A : Type 0} (b : Bool) (m k : Option (ℤ × List Bytes × A))
      → MayPrint m
      → MayPrint k
      → MayPrint (if b then m else k)
  if-MayPrint true m k p q = p
  if-MayPrint false m k p q = q

  search-Prints :
      (delimiter : Bytes) (q : Search G) (count : Bool)
      → MayPrint (print_search H.iconv G c delimiter q count)
  unfolding print_search output_csv_print_locations_with_names
      output_csv_print_locations_with_zip_codes output_csv_print_consular_districts
      output_csv_print_consulates output_csv_print_zip_code_specimina
  search-Prints delimiter q count =
      search (if-MayPrint, dump-Prints, prints, print_results-Prints, nothing) depth 14

  -- `print_json` does not say that it has found something where it prints nothing.
  abbrev pub JsonPrints : Type 0
  JsonPrints = (q : Search G) → Prints (H.print_json q).0 (H.print_json q).1

  pub run_dumper-Prints :
      JsonPrints
      → (f : Format) (q : Search G) (count : Bool) → MayPrint (run_dumper S G H c f q count)
  unfolding run_dumper output_csv_print output_flat_print output_void_print
  run_dumper-Prints j csv q count = search-Prints _ q count
  run_dumper-Prints j flat q count = search-Prints (codes " ") q count
  run_dumper-Prints j json q count = prints _ _ _ (j q)
  run_dumper-Prints j void_format q count = prints _ _ q nothing
