-- ===== src/Csv.antt =====
-- src/output_csv.c, src/output_flat.c and src/output_void.c: what the results of a search are
-- printed as. Each function takes the results out of the search's queue.
pub mod Lines
mod Tests
use secoli_sced.Base.{
  Bytes, codes, ℕ, zero, suc, ◌-◌, Bool, true, false, ◌&&◌, List, [], ◌∷◌, ◌++◌, Option, none, some,
  if◌then◌else◌, length, take, ltb, ◌==◌, ℤ, pos, negsuc, minus_one, eqb_ℤ,
}
use secoli_sced.Client.{Client, client_run_output_enc, client_get_field_delimiter}
use secoli_sced.Clib.{decimal, decimal_int, int_of}
use secoli_sced.ConsularDistrict.{
  ConsularDistrict, consular_district_get_territory_name, consular_district_get_sce_code,
}
use secoli_sced.Consulate.{Consulate, consulate_get_mae_code}
use secoli_sced.Encoder.{Iconv}
use secoli_sced.Location.{
  Location, location_get_sce_code, location_get_cons_mae_code, location_get_zip_code,
  location_get_province, location_get_istat_code, location_get_full_name,
}
use secoli_sced.Output.{Format, csv, flat, json, void_format}
use secoli_sced.Queue.Glib.{GQueue}
use secoli_sced.Queue.Loops.{rounds}
use secoli_sced.Queue.{Queue, queue_pop, queue_get_length}
use secoli_sced.Search.{
  Search, Glib, search_by_sce_code, type_consulates, type_locations, type_zc_specimina,
  type_consular_districts, type_dump,
}
use secoli_sced.Zipcode.{Zipcode, zipcode_get_cod_state, zipcode_get_code}

-- `%0wd`
unfoldable pub zeros : ℕ → Bytes
zeros zero = []
zeros (suc n) = b'0' ∷ zeros n

unfoldable pub padded : ℕ → ℤ → Bytes
unfolding zeros
padded w (pos n) = zeros (w - length (decimal n)) ++ decimal n
padded w (negsuc n) = b'-' ∷ zeros (w - 1 - length (decimal (suc n))) ++ decimal (suc n)

-- `%s`; glibc prints `(null)` for NULL
abbrev pub or_null : Option Bytes → Bytes
or_null none = codes "(null)"
or_null (some s) = s

-- What a function that prints returns: whether it found anything, what it sends, and the queue.
module _ {T : Type 0} (G : GQueue T) where
  abbrev pub Printed : Type 0
  Printed = ℤ × List Bytes × Option (Queue G)

  -- The loops `while (1)`: a result without a text is dropped.
  unfoldable pub print_from : (T → Option Bytes) → ℕ → ℤ → Option (Queue G) → Printed
  print_from line zero found q = (found, [], q)
  print_from line (suc fuel) found q =
      let (r, q') = queue_pop G q in
      elim r [
        | none ↦ (found, [], q')
        | some result ↦ (elim (line result) [
          | none ↦ print_from line fuel found q'
          | some text ↦
              let (found', lines, q2) = print_from line fuel (pos 1) q' in
              (found', text ∷ lines, q2)
        ])
      ]

  -- The count in front, if it is wanted. A round takes one result, and the last finds none.
  unfoldable pub print_results : (T → Option Bytes) → Bool → Option (Queue G) → Printed
  unfolding print_from
  print_results line print_result_count q =
      let (found, lines, q') = print_from line (rounds G q) (pos 0) q in
      if print_result_count
      then (found, (decimal_int (queue_get_length G q) ++ codes "\n") ∷ lines, q')
      else (found, lines, q')

-- The line of a location, with its last field.
unfoldable pub location_line : Bytes → Location → Bytes → Bytes
unfolding padded
location_line delimiter loc text =
    padded 12 (int_of (location_get_sce_code (some loc)))
    ++ (delimiter
        ++ (padded 7 (location_get_cons_mae_code (some loc))
            ++ (delimiter
                ++ (location_get_province (some loc)
                    ++ (delimiter
                        ++ (padded 6 (location_get_istat_code (some loc))
                            ++ (delimiter ++ (text ++ codes "\n"))))))))

module _ (I : Iconv) (G : Glib) (c : Client G) where
  abbrev encoded : Option Bytes → Option Bytes
  encoded = client_run_output_enc G I (some c)

  unfoldable pub named_line : Bytes → Location → Option Bytes
  unfolding location_line
  named_line delimiter loc = elim (encoded (location_get_full_name (some loc))) [
    | none ↦ none
    | some text ↦ some (location_line delimiter loc text)
  ]

  unfoldable pub zip_code_line : Bytes → Location → Option Bytes
  unfolding location_line
  zip_code_line delimiter loc = elim (location_get_zip_code (some loc)) [
    | none ↦ none
    | some text ↦ some (location_line delimiter loc text)
  ]

  unfoldable pub district_line : Bytes → ConsularDistrict → Option Bytes
  unfolding padded
  district_line delimiter cons = elim (encoded (consular_district_get_territory_name (some cons))) [
    | none ↦ none
    | some text ↦ some (
        padded 3 (consular_district_get_sce_code (some cons))
        ++ (delimiter ++ (text ++ codes "\n")))
  ]

  unfoldable pub consulate_line : Consulate → Option Bytes
  unfolding padded
  consulate_line cons = some (padded 7 (consulate_get_mae_code (some cons)) ++ codes "\n")

  unfoldable pub zipcode_line : Zipcode → Option Bytes
  unfolding padded
  zipcode_line z = some (
      padded 3 (zipcode_get_cod_state (some z))
      ++ (codes " " ++ (or_null (zipcode_get_code (some z)) ++ codes "\n")))

  -- A dump prints an int by `%s`: 0 is NULL, and any other is no pointer, so the result is `none`.
  unfoldable pub dump_lines : Bytes → List Location → Option (List Bytes)
  dump_lines delimiter [] = some []
  dump_lines delimiter (loc ∷ locs) =
      let rest = dump_lines delimiter locs in
      elim (encoded (location_get_full_name (some loc))) [
        | none ↦ rest
        | some text ↦
            if eqb_ℤ (location_get_cons_mae_code (some loc)) (pos 0)
            then (elim rest [
              | none ↦ none
              | some lines ↦ some ((codes "(null)" ++ (delimiter ++ (text ++ codes "\n"))) ∷ lines)
            ])
            else none
      ]

  -- `sce_dump[0]` to `sce_dump[count - 1]`
  unfoldable pub dumped : Option (List Location) → ℤ → Option (List Location)
  dumped dump (negsuc n) = some []
  dumped none (pos n) = if n == 0 then some [] else none
  dumped (some locs) (pos n) = if ltb (length locs) n then none else some (take n locs)

  unfoldable pub output_csv_dump_sce : Search G → Bool → Bytes → Option (ℤ × List Bytes × Search G)
  unfolding dumped dump_lines
  output_csv_dump_sce s print_result_count delimiter = elim (dumped s.sce_dump s.sce_dump_count) [
    | none ↦ none
    | some locs ↦ (elim (dump_lines delimiter locs) [
      | none ↦ none
      | some lines ↦ some (
        (if length lines == 0 then pos 0 else pos 1),
        (if print_result_count
            then (decimal_int s.sce_dump_count ++ codes "\n") ∷ lines
            else lines),
        s,
      )
    ])
  ]

  unfoldable pub output_csv_print_locations_with_names :
      Search G → Bool → Bytes → ℤ × List Bytes × Search G
  unfolding print_results named_line
  output_csv_print_locations_with_names s print_result_count delimiter =
      let (found, lines, q) =
        print_results (G Location) (named_line delimiter) print_result_count s.locations in
      (found, lines, record s { locations = q })

  unfoldable pub output_csv_print_locations_with_zip_codes :
      Search G → Bool → Bytes → ℤ × List Bytes × Search G
  unfolding print_results zip_code_line
  output_csv_print_locations_with_zip_codes s print_result_count delimiter =
      let (found, lines, q) =
        print_results (G Location) (zip_code_line delimiter) print_result_count s.locations in
      (found, lines, record s { locations = q })

  unfoldable pub output_csv_print_consular_districts :
      Search G → Bool → Bytes → ℤ × List Bytes × Search G
  unfolding print_results district_line
  output_csv_print_consular_districts s print_result_count delimiter =
      let (found, lines, q) =
        print_results (G ConsularDistrict) (district_line delimiter) print_result_count
          s.consular_districts in
      (found, lines, record s { consular_districts = q })

  unfoldable pub output_csv_print_consulates : Search G → Bool → Bytes → ℤ × List Bytes × Search G
  unfolding print_results consulate_line
  output_csv_print_consulates s print_result_count delimiter =
      let (found, lines, q) =
        print_results (G Consulate) consulate_line print_result_count s.consulates in
      (found, lines, record s { consulates = q })

  unfoldable pub output_csv_print_zip_code_specimina :
      Search G → Bool → Bytes → ℤ × List Bytes × Search G
  unfolding print_results zipcode_line
  output_csv_print_zip_code_specimina s print_result_count delimiter =
      let (found, lines, q) =
        print_results (G Zipcode) zipcode_line print_result_count s.zip_code_specimina in
      (found, lines, record s { zip_code_specimina = q })

  -- What `output_csv_print` and `output_flat_print` have in common.
  unfoldable pub print_search : Bytes → Search G → Bool → Option (ℤ × List Bytes × Search G)
  unfolding output_csv_dump_sce output_csv_print_locations_with_names
      output_csv_print_locations_with_zip_codes output_csv_print_consular_districts
      output_csv_print_consulates output_csv_print_zip_code_specimina
  print_search delimiter s print_result_count =
      let of = eqb_ℤ s.type in
      if of type_dump
      then output_csv_dump_sce s print_result_count delimiter
      else if of type_locations && eqb_ℤ s.search_by search_by_sce_code
      then some (output_csv_print_locations_with_zip_codes s print_result_count delimiter)
      else if of type_locations
      then some (output_csv_print_locations_with_names s print_result_count delimiter)
      else if of type_consular_districts
      then some (output_csv_print_consular_districts s print_result_count delimiter)
      else if of type_consulates
      then some (output_csv_print_consulates s print_result_count delimiter)
      else if of type_zc_specimina
      then some (output_csv_print_zip_code_specimina s print_result_count delimiter)
      else some (pos 0, [], s)

  unfoldable pub output_csv_print : Search G → Bool → Option (ℤ × List Bytes × Search G)
  unfolding print_search
  output_csv_print s print_result_count =
      print_search (or_null (client_get_field_delimiter G (some c))) s print_result_count

  unfoldable pub output_flat_print : Search G → Bool → Option (ℤ × List Bytes × Search G)
  unfolding print_search
  output_flat_print s print_result_count = print_search (codes " ") s print_result_count

  unfoldable pub output_void_print : Search G → Bool → Option (ℤ × List Bytes × Search G)
  output_void_print s print_result_count = some (pos 0, [], s)
