-- ===== src/Search/Branches.antt =====
-- The branches of `search_execute`, which do not fault where xmalloc finds memory for the records.
use secoli_sced.Base.{
  ℕ, suc, Option-cases, Bytes, ◌≡◌, ◌≢◌, refl, inl, inr, Bool, true, Option, none, some, ℤ, pos,
}
use secoli_sced.ConsularDistrict.{ConsularDistrict}
use secoli_sced.Consulate.{Consulate}
use secoli_sced.Location.{Location}
use secoli_sced.Queue.Glib.{GQueue}
use secoli_sced.Queue.Loops.{rounds}
use secoli_sced.Queue.{Queue, queue_get_first}
use secoli_sced.Sce.Find.{
  in_entity, find_districts, call_over_entities, status_dropped,
  sce_find_consular_districts_by_mae_code, sce_find_zip_code_specimina,
  sce_find_zip_code_specimen_per_state, sce_list_locations, sce_find_locations_by_name,
  sce_find_locations_by_zipcode, sce_find_locations_by_sce_code, sce_find_consulates,
}
use secoli_sced.Sce.Found.{
  call_over_entities-some, find_districts-some, by_zipcode-some, by_name-some, by_sce_code-some,
  consulates_of-some,
}
use secoli_sced.Sce.{Sce, SceEntity, get_entity_by_cod_state, sce_got_italian_cod_state}
use secoli_sced.Search.Execute.{
  with_locations, with_consulates, with_districts, with_specimina, with_dump,
}
use secoli_sced.Search.{Search, Glib}
use secoli_sced.Xsqlite.Find.{
  xsqlite_find_locations_by_name, xsqlite_find_locations_by_sce_code,
  xsqlite_find_locations_by_zipcode, xsqlite_find_consulates, xsqlite_find_zip_code_specimina,
  xsqlite_find_zip_code_specimen_italy,
}
use secoli_sced.Xsqlite.Found.{FindsAll, if-some, xsqlite_query_zip_code_specimina-some}
use secoli_sced.Xsqlite.{Sqlite}
use secoli_sced.Zipcode.{Zipcode}

module _ (S : Sqlite) (G : Glib) (sce : Sce S (G ConsularDistrict)) (memory : ℕ → ℕ → Bool)
    (finds : (k : ℕ) → FindsAll (memory k)) where
  in_entity-some :
      {T : Type 0} (Q : GQueue T) (c : ℤ)
      (f : SceEntity S → Option (Queue Q) → Option (ℤ × Option (Queue Q))) (q : Option (Queue Q))
      → ((e : SceEntity S) (r : Option (Queue Q)) → f e r ≢ none)
      → get_entity_by_cod_state S (G ConsularDistrict) sce c ≢ none
      → in_entity S (G ConsularDistrict) Q sce c f q ≢ none
  in_entity-some Q c f q total found =
      go (get_entity_by_cod_state S (G ConsularDistrict) sce c) refl
    where
      go :
          (r : Option (Option (SceEntity S)))
          → get_entity_by_cod_state S (G ConsularDistrict) sce c ≡ r
          → in_entity S (G ConsularDistrict) Q sce c f q ≢ none
      go none e = absurd (found e)
      go (some none) e = rw (e, in_entity) λ u. cc u
      go (some (some a)) e = rw (e, in_entity) (total a q)

  status_dropped-some :
      {T : Type 0} {Q : GQueue T} (r : Option (ℤ × Option (Queue Q)))
      → r ≢ none
      → status_dropped S (G ConsularDistrict) r ≢ none
  status_dropped-some none h = absurd (h refl)
  status_dropped-some (some (status, q)) h = λ u. cc u

  pub districts-some :
      (s : Search G)
      → with_districts S G s (
          sce_find_consular_districts_by_mae_code S
            (G ConsularDistrict)
            (memory 0)
            sce
            s.mae_code
            s.consular_districts)
        ≢ none
  unfolding sce_find_consular_districts_by_mae_code
  districts-some s =
      let all = sce.global_consular_districts in
      let fuel = rounds (G ConsularDistrict) all in
      let first = queue_get_first (G ConsularDistrict) all in
      elim (Option-cases (
        find_districts (G ConsularDistrict) (memory 0) fuel s.mae_code first
          s.consular_districts)) [
            | inl e ↦ absurd (
                find_districts-some (G ConsularDistrict) (memory 0) (finds 0) s.mae_code fuel first
                  s.consular_districts e)
            | inr ((all', q'), e) ↦
                rw (e, sce_find_consular_districts_by_mae_code, with_districts) λ u. cc u
          ]

  specimen_italy-some :
      (q : Option (Queue (G Zipcode)))
      → (q' : Option (Queue (G Zipcode))) × (xsqlite_find_zip_code_specimen_italy (G Zipcode) true q
          ≡ some (pos 0, q'))
  unfolding xsqlite_find_zip_code_specimen_italy
  specimen_italy-some q = (_, refl)

  pub specimina-some :
      (s : Search G)
      → with_specimina S G s sce (
          sce_find_zip_code_specimina S
            (G ConsularDistrict)
            (G Zipcode)
            memory
            sce
            s.zip_code_specimina)
        ≢ none
  unfolding sce_find_zip_code_specimina sce_find_zip_code_specimen_per_state
      xsqlite_find_zip_code_specimina
  specimina-some s =
      let (q', e) = specimen_italy-some s.zip_code_specimina in
      let handler = λ (n : ℕ) (a : SceEntity S) (t : Option (Queue (G Zipcode))).
        sce_find_zip_code_specimen_per_state S (G ConsularDistrict) (G Zipcode) (memory (suc n)) a
          t in
      elim (Option-cases (call_over_entities handler sce.entity_table q')) [
        | inl f ↦ absurd (
            call_over_entities-some handler sce.entity_table q'
              (λ n a t.
                xsqlite_query_zip_code_specimina-some S (memory (suc n)) (finds (suc n)) (G Zipcode)
                  a.db _ t)
              f)
        | inr (q2, f) ↦ rw (finds 0 0, e, f, sce_find_zip_code_specimina, with_specimina) λ u. cc u
      ]

  pub with_locations-some :
      (s : Search G) (r : Option (ℤ × Option (Queue (G Location))))
      → r ≢ none
      → with_locations S G s sce r ≢ none
  with_locations-some s none h = absurd (h refl)
  with_locations-some s (some (status, q)) h = λ u. cc u

  pub with_consulates-some :
      (s : Search G) (r : Option (ℤ × Option (Queue (G Consulate))))
      → r ≢ none
      → with_consulates S G s sce r ≢ none
  with_consulates-some s none h = absurd (h refl)
  with_consulates-some s (some (status, q)) h = λ u. cc u

  pub list-some :
      (s : Search G)
      → get_entity_by_cod_state S (G ConsularDistrict) sce s.cod_state ≢ none
      → with_dump S G s sce
          (sce_list_locations S (G ConsularDistrict) sce s.cod_state s.sce_dump_count)
        ≢ none
  unfolding sce_list_locations
  list-some s found = go (get_entity_by_cod_state S (G ConsularDistrict) sce s.cod_state) refl
    where
      go :
          (r : Option (Option (SceEntity S)))
          → get_entity_by_cod_state S (G ConsularDistrict) sce s.cod_state ≡ r
          → with_dump S G s sce
              (sce_list_locations S (G ConsularDistrict) sce s.cod_state s.sce_dump_count)
            ≢ none
      go none e = absurd (found e)
      go (some none) e = rw (e, sce_list_locations) λ u. cc u
      go (some (some a)) e = rw (e, sce_list_locations) λ u. cc u

  pub zipcode-some :
      (s : Search G) (rest z : Bytes)
      → get_entity_by_cod_state S (G ConsularDistrict) sce s.cod_state ≢ none
      → s.zipcode ≡ some z
      → sce_find_locations_by_zipcode S
          (G ConsularDistrict)
          (G Location)
          memory
          rest
          sce
          s.cod_state
          s.zipcode
          s.locations
        ≢ none
  unfolding sce_find_locations_by_zipcode
  zipcode-some s rest z found e = rw e (
      in_entity-some (G Location) s.cod_state
        (λ a. xsqlite_find_locations_by_zipcode S (G Location) memory rest a.db z s.cod_state)
        s.locations (λ a. by_zipcode-some S G memory finds a.db rest z s.cod_state) found)

  pub consulates-some :
      (s : Search G) (e0 : SceEntity S)
      → get_entity_by_cod_state S (G ConsularDistrict) sce s.cod_state ≢ none
      → sce.entity_000 ≡ some e0
      → sce_find_consulates S
          (G ConsularDistrict)
          (G Consulate)
          (memory 0)
          sce
          s.cod_state
          s.territorial_competence
          s.consulates
        ≢ none
  unfolding sce_find_consulates
  consulates-some s e0 found e =
      let there =
        in_entity-some (G Consulate) s.cod_state
          (λ a.
            xsqlite_find_consulates S (G Consulate) (memory 0) a.db s.cod_state
              s.territorial_competence)
          s.consulates
          (λ a.
            consulates_of-some S G (memory 0) (finds 0) a.db s.cod_state s.territorial_competence)
          found in
      if-some (sce_got_italian_cod_state s.cod_state) (λ t u. cc u)
        λ _.
          if-some s.territorial_competence (λ t. there)
            λ _. rw e (
              consulates_of-some S G (memory 0) (finds 0) e0.db s.cod_state s.territorial_competence
                s.consulates)

  pub name-some :
      (s : Search G)
      → get_entity_by_cod_state S (G ConsularDistrict) sce s.cod_state ≢ none
      → sce_find_locations_by_name S
          (G ConsularDistrict)
          (G Location)
          (memory 0)
          sce
          s.cod_state
          s.name
          s.province
          s.locations
        ≢ none
  unfolding sce_find_locations_by_name
  name-some s found =
      in_entity-some (G Location) s.cod_state
        (λ a q. status_dropped S (G ConsularDistrict) (
          xsqlite_find_locations_by_name S (G Location) (memory 0) a.db s.name s.province
            (sce_got_italian_cod_state s.cod_state) q))
        s.locations
        (λ a q. status_dropped-some _ (
          by_name-some S G (memory 0) (finds 0) a.db s.name s.province
            (sce_got_italian_cod_state s.cod_state) q))
        found

  pub sce_code-some :
      (s : Search G)
      → get_entity_by_cod_state S (G ConsularDistrict) sce s.cod_state ≢ none
      → sce_find_locations_by_sce_code S
          (G ConsularDistrict)
          (G Location)
          (memory 0)
          sce
          s.cod_state
          s.sce_code
          s.locations
        ≢ none
  unfolding sce_find_locations_by_sce_code
  sce_code-some s found =
      in_entity-some (G Location) s.cod_state
        (λ a.
          xsqlite_find_locations_by_sce_code S (G Location) (memory 0) a.db s.sce_code
            (sce_got_italian_cod_state s.cod_state))
        s.locations
        (λ a.
          by_sce_code-some S G (memory 0) (finds 0) a.db s.sce_code
            (sce_got_italian_cod_state s.cod_state))
        found
