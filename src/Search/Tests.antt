-- ===== src/Search/Tests.antt =====
-- A search by zip code, and the theorems at it.
use secoli_sced.Base.{codes, ◌≡◌, ◌≢◌, refl, inr, true, false, [], ◌∷◌, none, some, pos, minus_one}
use secoli_sced.Queue.Glib.{list_queue}
use secoli_sced.Search.Execute.{search_execute}
use secoli_sced.Search.Kind.{
  change_all, IsBy, set_name, set_zipcode, set_cod_state, search_create-IsBy,
}
use secoli_sced.Search.Safety.{search_execute-some}
use secoli_sced.Search.{Search, search_create, search_by_zipcode, type_locations}
use secoli_sced.Sce.Sample.{sqlite, loaded, entity, loaded-IsTable, germany}

abbrev by_zipcode : Search list_queue
by_zipcode = record {
  name = none;
  zipcode = some (codes "10115");
  province = none;
  cod_state = minus_one;
  sce_code = minus_one;
  mae_code = pos 0;
  search_by = search_by_zipcode;
  type = type_locations;
  sce_dump = none;
  sce_dump_count = pos 0;
  constraint = pos 1;
  territorial_competence = false;
  locations = none;
  consulates = none;
  zip_code_specimina = none;
  consular_districts = none;
}

search_create-IsBy_example :
    (s : Search list_queue) × (change_all list_queue
        (search_create list_queue
          (some by_zipcode)
          (true, true, true, true)
          (pos 49)
          none
          minus_one
          none
          (pos 0))
        (set_name (some (codes "Berlin")) ∷ set_zipcode none ∷ set_cod_state (pos 50) ∷ [])
      ≡ some s)
    × IsBy list_queue s
search_create-IsBy_example =
    search_create-IsBy list_queue by_zipcode (pos 49) none minus_one none (pos 0)
      (set_name (some (codes "Berlin")) ∷ set_zipcode none ∷ set_cod_state (pos 50) ∷ [])

search_execute-some_example :
    search_execute sqlite list_queue []
      (λ k n. true)
      (some (record by_zipcode { cod_state = pos 49 }))
      loaded
    ≢ none
search_execute-some_example =
    search_execute-some sqlite list_queue loaded (record by_zipcode { cod_state = pos 49 }) []
      (λ k n. true) entity (λ k n. refl) loaded-IsTable refl refl (inr germany)
