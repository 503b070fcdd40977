-- ===== src/Search/Safety.antt =====
-- `search_execute` does not fault.
use secoli_sced.Base.{
  ℕ, Bytes, ◌≡◌, ◌≢◌, ◌⊎◌, refl, inl, inr, Bool, true, not, ◌&&◌, Option, none, some, arith, ℤ,
  eqb_ℤ,
}
use secoli_sced.ConsularDistrict.{ConsularDistrict}
use secoli_sced.Sce.State.{IsCode, IsTable, get_entity_by_cod_state-IsCode}
use secoli_sced.Sce.{Sce, SceEntity, get_entity_by_cod_state}
use secoli_sced.Search.Execute.{dispatch, search_execute}
use secoli_sced.Search.{
  Search, Glib, kind_of, search_by_zipcode, search_by_name, search_by_sce_code, search_by_mae_code,
  type_consulates, type_locations, type_zc_specimina, type_consular_districts,
}
use secoli_sced.Xsqlite.Found.{FindsAll, if-some}
use secoli_sced.Xsqlite.{Sqlite}
use secoli_sced.Zipcode.{cod_state_unset}
use secoli_sced.Search.Branches.{
  with_locations-some, with_consulates-some, list-some, zipcode-some, consulates-some, name-some,
  sce_code-some, districts-some, specimina-some,
}

module _ (S : Sqlite) (G : Glib) (sce : Sce S (G ConsularDistrict)) (memory : ℕ → ℕ → Bool)
    (finds : (k : ℕ) → FindsAll (memory k)) where
  -- A search by zip code has one.
  zipcode-given :
      (s : Search G)
      → s.search_by ≡ kind_of G s
      → s.search_by ≡ search_by_zipcode
      → (z : Bytes) × (s.zipcode ≡ some z)
  zipcode-given s by zip = go s.zipcode refl
    where
      go : (v : Option Bytes) → s.zipcode ≡ v → (z : Bytes) × (s.zipcode ≡ some z)
      go (some z) e = (z, e)
      go none e = ground arith

  -- The searches that look into the entity of a state.
  abbrev is_local : Search G → Bool
  is_local s = not (eqb_ℤ s.type type_zc_specimina) && not (eqb_ℤ s.type type_consular_districts)

  abbrev is_by : Search G → ℤ → ℤ → Bool
  is_by s by type = eqb_ℤ s.search_by by && eqb_ℤ s.type type

  dispatch-some :
      (s : Search G) (rest : Bytes) (e0 : SceEntity S)
      → s.search_by ≡ kind_of G s
      → sce.entity_000 ≡ some e0
      → (is_local s ≡ true → get_entity_by_cod_state S (G ConsularDistrict) sce s.cod_state ≢ none)
      → dispatch S G rest memory s sce ≢ none
  unfolding dispatch
  dispatch-some s rest e0 by zero_there found =
      if-some (is_by s search_by_name type_locations)
        (λ t.
          with_locations-some S G sce memory finds s _
            (name-some S G sce memory finds s (found (ground arith))))
        λ _.
          if-some (is_by s search_by_zipcode type_locations)
            (λ t.
              let (z, e) = zipcode-given s by (ground arith) in
              with_locations-some S G sce memory finds s _
                (zipcode-some S G sce memory finds s rest z (found (ground arith)) e))
            λ _.
              if-some (is_by s search_by_sce_code type_locations)
                (λ t.
                  with_locations-some S G sce memory finds s _
                    (sce_code-some S G sce memory finds s (found (ground arith))))
                λ _.
                  if-some (is_by s search_by_mae_code type_consular_districts)
                    (λ t. districts-some S G sce memory finds s)
                    λ _.
                      if-some (eqb_ℤ s.type type_consulates)
                        (λ t. with_consulates-some S G sce memory finds s _ (
                          consulates-some S G sce memory finds s e0 (found (ground arith))
                            zero_there))
                        λ _.
                          if-some (eqb_ℤ s.type type_zc_specimina)
                            (λ t. specimina-some S G sce memory finds s) (λ f u. cc u)

  execute-some :
      (s : Search G) (rest : Bytes) (e0 : SceEntity S)
      → s.search_by ≡ kind_of G s
      → sce.entity_000 ≡ some e0
      → (s.cod_state ≡ cod_state_unset)
        ⊎ (get_entity_by_cod_state S (G ConsularDistrict) sce s.cod_state ≢ none)
      → search_execute S G rest memory (some s) sce ≢ none
  unfolding search_execute
  execute-some s rest e0 by zero_there code =
      if-some
        (not (eqb_ℤ s.type type_zc_specimina)
          && not (eqb_ℤ s.type type_consular_districts)
          && eqb_ℤ s.cod_state cod_state_unset)
        (λ t u. cc u)
        λ set.
          let found : is_local s ≡ true
              → get_entity_by_cod_state S (G ConsularDistrict) sce s.cod_state ≢ none =
            λ l. elim code [ inl unset ↦ absurd (ground arith) | inr found ↦ found ] in
          if-some _ (λ t. list-some S G sce memory finds s (found (ground arith)))
            λ _. dispatch-some s rest e0 by zero_there found

-- With the table at its size and the entity of code 0 loaded, `search_execute` neither reads
-- outside the table nor through NULL, if the search is by what its predicates say and its state
-- is unset, 0 or a code that `sce_validate_cod_state` accepts, and xmalloc finds memory for the
-- statement and the records of the results.
pub search_execute-some :
    (S : Sqlite) (G : Glib) (sce : Sce S (G ConsularDistrict)) (s : Search G) (rest : Bytes)
    (memory : ℕ → ℕ → Bool) (e0 : SceEntity S)
    → ((k : ℕ) → FindsAll (memory k))
    → IsTable S (G ConsularDistrict) sce
    → sce.entity_000 ≡ some e0
    → s.search_by ≡ kind_of G s
    → (s.cod_state ≡ cod_state_unset) ⊎ IsCode s.cod_state
    → search_execute S G rest memory (some s) sce ≢ none
search_execute-some S G sce s rest memory e0 finds table zero_there by (inl unset) =
    execute-some S G sce memory finds s rest e0 by zero_there (inl unset)
search_execute-some S G sce s rest memory e0 finds table zero_there by (inr code) =
    execute-some S G sce memory finds s rest e0 by zero_there
      (inr (get_entity_by_cod_state-IsCode S (G ConsularDistrict) sce s.cod_state table code))
