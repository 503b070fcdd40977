-- ===== src/Sce/Find.antt =====
-- The searches of src/sce.c. Where a search faults, by an index outside the table or a NULL
-- pointer, its result is `none`.
use secoli_sced.Base.{
  length, Bytes, ℕ, zero, suc, Bool, not, List, [], ◌∷◌, Option, none, some, if◌then◌else◌, ℤ, pos,
  minus_one, eqb_ℤ,
}
use secoli_sced.ConsularDistrict.{
  ConsularDistrict, consular_district_create, consular_district_get_mae_code,
  consular_district_set_mae_code_int, consular_district_get_territory_name,
  consular_district_set_territory_name, consular_district_get_sce_code,
  consular_district_set_sce_code_int,
}
use secoli_sced.Consulate.{Consulate}
use secoli_sced.Location.{Location}
use secoli_sced.Queue.Glib.{GQueue}
use secoli_sced.Queue.Loops.{rounds}
use secoli_sced.Queue.{Queue, queue_get_first, queue_get_next, queue_push}
use secoli_sced.Sce.{Sce, SceEntity, get_entity_by_cod_state, sce_got_italian_cod_state}
use secoli_sced.Xsqlite.Find.{
  xsqlite_find_locations_by_name, xsqlite_find_locations_by_sce_code,
  xsqlite_find_locations_by_zipcode, xsqlite_find_consulates, xsqlite_find_consular_districts,
  xsqlite_find_zip_code_specimina, xsqlite_find_zip_code_specimen_italy,
}
use secoli_sced.Xsqlite.{Sqlite}
use secoli_sced.Zipcode.{Zipcode}

-- A district of the result, with the values of one of `global_consular_districts`; `none` where
-- xmalloc finds no memory for it.
unfoldable pub copy_district : Bool → ConsularDistrict → Option ConsularDistrict
copy_district memory cons =
    let c1 =
      (consular_district_set_mae_code_int (consular_district_create memory)
        (consular_district_get_mae_code (some cons))).1 in
    let c2 =
      (consular_district_set_territory_name c1
        (consular_district_get_territory_name (some cons))).1 in
    (consular_district_set_sce_code_int c2 (consular_district_get_sce_code (some cons))).1

-- The loop of `sce_call_over_entities`, with the data that the handler changes. The number of the
-- entries behind is given to the handler, by which it knows what memory it finds; `none` where it
-- faults.
unfoldable pub call_over_entities {ℓ κ} :
    {E : Type ℓ} {X : Type κ} → (ℕ → E → X → Option (ℤ × X)) → List (Option E) → X → Option X
call_over_entities handler [] target = some target
call_over_entities handler (none ∷ table) target = call_over_entities handler table target
call_over_entities handler (some entity ∷ table) target =
    elim (handler (length table) entity target) [
      | none ↦ none
      | some (status, target') ↦ call_over_entities handler table target'
    ]

-- The loop of `sce_find_consular_districts_by_mae_code`, over `all`, and the districts it finds.
module _ (D : GQueue ConsularDistrict) where
  -- Its body, for the results.
  abbrev pub add_district :
      Bool → ℤ → ConsularDistrict → Option (Queue D) → Option (Option (Queue D))
  add_district memory mae_code cons found =
      if eqb_ℤ (consular_district_get_mae_code (some cons)) mae_code
      then elim (copy_district memory cons) [
        | none ↦ none
        | some c ↦ some (queue_push D found (some c)).1
      ]
      else some found

  -- In round `n`, counted down, `memory n` is what xmalloc finds.
  unfoldable pub find_districts :
      (ℕ → Bool)
      → ℕ
      → ℤ
      → Option ConsularDistrict × Option (Queue D)
      → Option (Queue D)
      → Option (Option (Queue D) × Option (Queue D))
  unfolding copy_district
  find_districts memory zero mae_code (cons, all) found = some (all, found)
  find_districts memory (suc fuel) mae_code (none, all) found = some (all, found)
  find_districts memory (suc fuel) mae_code (some cons, all) found =
      elim (add_district (memory fuel) mae_code cons found) [
        | none ↦ none
        | some found' ↦ find_districts memory fuel mae_code (queue_get_next D all) found'
      ]

module _ (S : Sqlite) (D : GQueue ConsularDistrict) where
  abbrev Find : {T : Type 0} → GQueue T → Type 0
  Find G = Option (Queue G) → Option (ℤ × Option (Queue G))

  -- `SceEntity *e = get_entity_by_cod_state(cod_state); if (!e) return -1; …`
  abbrev pub in_entity : {T : Type 0} (G : GQueue T) → Sce S D → ℤ → (SceEntity S → Find G) → Find G
  in_entity G sce cod_state f q = elim (get_entity_by_cod_state S D sce cod_state) [
    | none ↦ none
    | some none ↦ some (minus_one, q)
    | some (some e) ↦ f e q
  ]

  -- A call whose status is not looked at, and `return 0`.
  abbrev pub status_dropped :
      {T : Type 0} {G : GQueue T} → Option (ℤ × Option (Queue G)) → Option (ℤ × Option (Queue G))
  status_dropped none = none
  status_dropped (some (status, q)) = some (pos 0, q)

  unfoldable pub sce_list_locations : Sce S D → ℤ → ℤ → Option (Option (List Location) × ℤ)
  sce_list_locations sce cod_state count = elim (get_entity_by_cod_state S D sce cod_state) [
    | none ↦ none
    | some none ↦ some (none, count)
    | some (some e) ↦ some (e.locations, e.location_count)
  ]

  unfoldable pub sce_find_locations_by_name :
      (G : GQueue Location) → (ℕ → Bool) → Sce S D → ℤ → Option Bytes → Option Bytes → Find G
  sce_find_locations_by_name G memory sce cod_state name province = in_entity G sce cod_state λ e q.
      status_dropped (
        xsqlite_find_locations_by_name S G memory e.db name province
          (sce_got_italian_cod_state cod_state) q)

  unfoldable pub sce_find_locations_by_sce_code :
      (G : GQueue Location) → (ℕ → Bool) → Sce S D → ℤ → ℤ → Find G
  sce_find_locations_by_sce_code G memory sce cod_state sce_code = in_entity G sce cod_state λ e q.
      xsqlite_find_locations_by_sce_code S G memory e.db sce_code
        (sce_got_italian_cod_state cod_state) q

  -- Each branch of the search reads the zip code: NULL is a fault. `rest` is as in
  -- `xsqlite_find_locations_by_zipcode`.
  unfoldable pub sce_find_locations_by_zipcode :
      (G : GQueue Location) → (ℕ → ℕ → Bool) → Bytes → Sce S D → ℤ → Option Bytes → Find G
  sce_find_locations_by_zipcode G memory rest sce cod_state zipcode =
      in_entity G sce cod_state λ e q. elim zipcode [
        | none ↦ none
        | some z ↦ xsqlite_find_locations_by_zipcode S G memory rest e.db z cod_state q
      ]

  unfoldable pub sce_find_consulates :
      (G : GQueue Consulate) → (ℕ → Bool) → Sce S D → ℤ → Bool → Find G
  unfolding sce_got_italian_cod_state
  sce_find_consulates G memory sce cod_state territorial_competence q =
      if sce_got_italian_cod_state cod_state
      then some (minus_one, q)
      else if territorial_competence
      then in_entity G sce cod_state
          (λ e q'. xsqlite_find_consulates S G memory e.db cod_state territorial_competence q') q
      else elim sce.entity_000 [
        | none ↦ none
        | some e ↦ xsqlite_find_consulates S G memory e.db cod_state territorial_competence q
      ]

  unfoldable pub sce_find_consular_districts_by_mae_code :
      (ℕ → Bool) → Sce S D → ℤ → Option (Queue D) → Option (ℤ × Sce S D × Option (Queue D))
  unfolding find_districts
  sce_find_consular_districts_by_mae_code memory sce mae_code q =
      let all = sce.global_consular_districts in
      elim (find_districts D memory (rounds D all) mae_code (queue_get_first D all) q) [
        | none ↦ none
        | some (all', q') ↦ some (pos 0, record sce { global_consular_districts = all' }, q')
      ]

  unfoldable pub sce_find_consular_districts_per_state :
      (ℕ → Bool) → SceEntity S → Option (Queue D) → Option (ℤ × Option (Queue D))
  sce_find_consular_districts_per_state memory entity target =
      xsqlite_find_consular_districts S D memory entity.db target

  unfoldable pub sce_find_zip_code_specimen_per_state :
      (Z : GQueue Zipcode)
      → (ℕ → Bool)
      → SceEntity S
      → Option (Queue Z)
      → Option (ℤ × Option (Queue Z))
  sce_find_zip_code_specimen_per_state Z memory entity target =
      xsqlite_find_zip_code_specimina S Z memory entity.db target

  -- `return 0`, where no call has faulted.
  abbrev pub with_zero : {X : Type 0} → Option X → Option (ℤ × X)
  with_zero none = none
  with_zero (some x) = some (pos 0, x)

  -- What xmalloc finds: `memory 0 0` for the specimen of Italy, and `memory (suc n)` for those of
  -- the entry of the table with `n` entries behind it.
  unfoldable pub sce_find_zip_code_specimina :
      (Z : GQueue Zipcode)
      → (ℕ → ℕ → Bool)
      → Sce S D
      → Option (Queue Z)
      → Option (ℤ × Option (Queue Z))
  unfolding call_over_entities
  sce_find_zip_code_specimina Z memory sce q =
      elim (xsqlite_find_zip_code_specimen_italy Z (memory 0 0) q) [
        | none ↦ none
        | some (status, q') ↦
            if not (eqb_ℤ status (pos 0))
            then some (minus_one, q')
            else with_zero (
                call_over_entities
                  (λ n e t. sce_find_zip_code_specimen_per_state Z (memory (suc n)) e t)
                  sce.entity_table q')
      ]
