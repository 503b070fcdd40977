-- ===== src/Search/Execute.antt =====
-- src/search.c: the execution of a search, and its results.
use secoli_sced.Base.{
  Bytes, ℕ, Bool, not, ◌&&◌, List, Option, none, some, if◌then◌else◌, ℤ, pos, minus_one, eqb_ℤ,
}
use secoli_sced.ConsularDistrict.{ConsularDistrict}
use secoli_sced.Consulate.{Consulate}
use secoli_sced.Location.{Location}
use secoli_sced.Queue.{Queue, queue_pop, queue_get_length}
use secoli_sced.Sce.Find.{
  sce_list_locations, sce_find_locations_by_name, sce_find_locations_by_zipcode,
  sce_find_locations_by_sce_code, sce_find_consular_districts_by_mae_code, sce_find_consulates,
  sce_find_zip_code_specimina,
}
use secoli_sced.Sce.{Sce}
use secoli_sced.Search.{
  Search, Glib, Pointer, search_by_name, search_by_sce_code, search_by_zipcode, search_by_mae_code,
  type_consulates, type_locations, type_zc_specimina, type_consular_districts, type_dump,
}
use secoli_sced.Xsqlite.{Sqlite}
use secoli_sced.Zipcode.{Zipcode, cod_state_unset}

module _ (S : Sqlite) (G : Glib) where
  -- The status, the search and the static variables of src/sce.c; `none` where the call faults.
  abbrev pub Executed : Type 0
  Executed = Option (ℤ × Pointer G × Sce S (G ConsularDistrict))

  abbrev pub with_locations :
      Search G → Sce S (G ConsularDistrict) → Option (ℤ × Option (Queue (G Location))) → Executed
  with_locations s sce none = none
  with_locations s sce (some (status, q)) = some (status, some (record s { locations = q }), sce)

  abbrev pub with_consulates :
      Search G → Sce S (G ConsularDistrict) → Option (ℤ × Option (Queue (G Consulate))) → Executed
  with_consulates s sce none = none
  with_consulates s sce (some (status, q)) = some (status, some (record s { consulates = q }), sce)

  abbrev pub with_dump :
      Search G → Sce S (G ConsularDistrict) → Option (Option (List Location) × ℤ) → Executed
  with_dump s sce none = none
  with_dump s sce (some (dump, count)) =
      some (pos 0, some (record s { sce_dump = dump; sce_dump_count = count }), sce)

  abbrev pub with_districts :
      Search G
      → Option (ℤ × Sce S (G ConsularDistrict) × Option (Queue (G ConsularDistrict)))
      → Executed
  with_districts s none = none
  with_districts s (some (status, sce', q)) =
      some (status, some (record s { consular_districts = q }), sce')

  abbrev pub with_specimina :
      Search G → Sce S (G ConsularDistrict) → Option (ℤ × Option (Queue (G Zipcode))) → Executed
  with_specimina s sce none = none
  with_specimina s sce (some (status, q)) =
      some (status, some (record s { zip_code_specimina = q }), sce)

  -- The chain of tests at the end of `search_execute`. `rest` is as in
  -- `xsqlite_find_locations_by_zipcode`; `memory` says what xmalloc finds for the records that the
  -- search makes, `memory 0` in its first query, and `memory 1 0` for the text of a statement.
  unfoldable pub dispatch :
      Bytes → (ℕ → ℕ → Bool) → Search G → Sce S (G ConsularDistrict) → Executed
  dispatch rest memory s sce =
      let by = eqb_ℤ s.search_by in
      let of = eqb_ℤ s.type in
      if by search_by_name && of type_locations
      then with_locations s sce (
          sce_find_locations_by_name S (G ConsularDistrict) (G Location) (memory 0) sce s.cod_state
            s.name s.province s.locations)
      else if by search_by_zipcode && of type_locations
      then with_locations s sce (
          sce_find_locations_by_zipcode S (G ConsularDistrict) (G Location) memory rest sce
            s.cod_state s.zipcode s.locations)
      else if by search_by_sce_code && of type_locations
      then with_locations s sce (
          sce_find_locations_by_sce_code S (G ConsularDistrict) (G Location) (memory 0) sce
            s.cod_state s.sce_code s.locations)
      else if by search_by_mae_code && of type_consular_districts
      then with_districts s (
          sce_find_consular_districts_by_mae_code S (G ConsularDistrict) (memory 0) sce s.mae_code
            s.consular_districts)
      else if of type_consulates
      then with_consulates s sce (
          sce_find_consulates S (G ConsularDistrict) (G Consulate) (memory 0) sce s.cod_state
            s.territorial_competence s.consulates)
      else if of type_zc_specimina
      then with_specimina s sce (
          sce_find_zip_code_specimina S (G ConsularDistrict) (G Zipcode) memory sce
            s.zip_code_specimina)
      else some (minus_one, some s, sce)

  unfoldable pub search_execute :
      Bytes → (ℕ → ℕ → Bool) → Pointer G → Sce S (G ConsularDistrict) → Executed
  unfolding dispatch
  search_execute rest memory none sce = some (minus_one, none, sce)
  search_execute rest memory (some s) sce =
      if not (eqb_ℤ s.type type_zc_specimina)
        && not (eqb_ℤ s.type type_consular_districts)
        && eqb_ℤ s.cod_state cod_state_unset
      then some (minus_one, some s, sce)
      else if eqb_ℤ s.type type_dump
      then with_dump s sce
          (sce_list_locations S (G ConsularDistrict) sce s.cod_state s.sce_dump_count)
      else dispatch rest memory s sce

module _ (G : Glib) where
  unfoldable pub search_pop_location : Pointer G → Option Location × Pointer G
  search_pop_location none = (none, none)
  search_pop_location (some s) =
      let (d, q) = queue_pop (G Location) s.locations in (d, some (record s { locations = q }))

  unfoldable pub search_count_locations : Pointer G → ℤ
  search_count_locations none = minus_one
  search_count_locations (some s) = queue_get_length (G Location) s.locations

  unfoldable pub search_pop_consulate : Pointer G → Option Consulate × Pointer G
  search_pop_consulate none = (none, none)
  search_pop_consulate (some s) =
      let (d, q) = queue_pop (G Consulate) s.consulates in (d, some (record s { consulates = q }))

  unfoldable pub search_count_consulates : Pointer G → ℤ
  search_count_consulates none = minus_one
  search_count_consulates (some s) = queue_get_length (G Consulate) s.consulates

  unfoldable pub search_pop_consular_district : Pointer G → Option ConsularDistrict × Pointer G
  search_pop_consular_district none = (none, none)
  search_pop_consular_district (some s) =
      let (d, q) = queue_pop (G ConsularDistrict) s.consular_districts in
      (d, some (record s { consular_districts = q }))

  unfoldable pub search_count_consular_districts : Pointer G → ℤ
  search_count_consular_districts none = minus_one
  search_count_consular_districts (some s) =
      queue_get_length (G ConsularDistrict) s.consular_districts

  unfoldable pub search_pop_zip_code_specimen : Pointer G → Option Zipcode × Pointer G
  search_pop_zip_code_specimen none = (none, none)
  search_pop_zip_code_specimen (some s) =
      let (d, q) = queue_pop (G Zipcode) s.zip_code_specimina in
      (d, some (record s { zip_code_specimina = q }))

  unfoldable pub search_count_zip_code_specimina : Pointer G → ℤ
  search_count_zip_code_specimina none = minus_one
  search_count_zip_code_specimina (some s) = queue_get_length (G Zipcode) s.zip_code_specimina

  unfoldable pub search_count_results : Pointer G → ℤ
  unfolding search_count_locations search_count_consulates search_count_consular_districts
      search_count_zip_code_specimina
  search_count_results none = minus_one
  search_count_results (some s) =
      let of = eqb_ℤ s.type in
      if of type_locations
      then search_count_locations (some s)
      else if of type_consular_districts
      then search_count_consular_districts (some s)
      else if of type_consulates
      then search_count_consulates (some s)
      else if of type_zc_specimina
      then search_count_zip_code_specimina (some s)
      else minus_one
