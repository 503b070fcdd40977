-- ===== src/Sce/Tests.antt =====
-- The codes of states, and the theorems at a small table.
use secoli_sced.Base.{Option, true, codes, ◌≡◌, ◌≢◌, refl, arith, [], ◌∷◌, none, some, pos}
use secoli_sced.Clib.{decimal, is_digit, is_space, scan, atoi}
use secoli_sced.ConsularDistrict.{ConsularDistrict}
use secoli_sced.Queue.Glib.{list_queue}
use secoli_sced.Queue.Holds.{at_node, holds}
use secoli_sced.Queue.{Queue}
use secoli_sced.Sce.Districts.{matching, AreFound, sce_find_consular_districts_by_mae_code-AreFound}
use secoli_sced.Sce.Find.{sce_find_consular_districts_by_mae_code}
use secoli_sced.Sce.Sample.{sqlite, district, queue_of, entity, loaded, loaded-IsTable, germany}
use secoli_sced.Sce.Load.{DataFile, HaveBuffers, sce_init, load_all, sce_init-load_all}
use secoli_sced.Sce.{Sce, digits_of}
use secoli_sced.Sce.State.{
  IsTable, then_get, sce_validate_cod_state-decimal, get_entity_by_cod_state-IsCode,
  set_entity_by_cod_state-get,
}
use secoli_sced.Sce.{sce_validate_cod_state, get_entity_by_cod_state, set_entity_by_cod_state}

-- The value of a longer number is cut to 32 bits, and passes for another state.
overlong : sce_validate_cod_state (some (codes "4294967371")) ≡ pos 75
unfolding sce_validate_cod_state is_digit atoi is_space scan
overlong = refl

sce_validate_cod_state-decimal_example : sce_validate_cod_state (some (decimal 49)) ≡ pos 49
sce_validate_cod_state-decimal_example =
    sce_validate_cod_state-decimal 49 (omega arith) (omega arith)

get_entity_by_cod_state-IsCode_example :
    get_entity_by_cod_state sqlite (list_queue ConsularDistrict) loaded (pos 49) ≢ none
get_entity_by_cod_state-IsCode_example =
    get_entity_by_cod_state-IsCode sqlite (list_queue ConsularDistrict) loaded (pos 49)
      loaded-IsTable germany

set_entity_by_cod_state-get_example :
    then_get sqlite
      (list_queue ConsularDistrict)
      (set_entity_by_cod_state sqlite (list_queue ConsularDistrict) loaded (pos 49) (some entity))
      (pos 49)
    ≡ some (some entity)
set_entity_by_cod_state-get_example =
    set_entity_by_cod_state-get sqlite (list_queue ConsularDistrict) loaded (pos 49) (pos 49) entity
      loaded-IsTable germany germany

sce_find_consular_districts_by_mae_code-AreFound_example :
    (all' : Option (Queue (list_queue ConsularDistrict))) × (q' : Option
      (Queue (list_queue ConsularDistrict)))
    × (sce_find_consular_districts_by_mae_code sqlite
          (list_queue ConsularDistrict)
          (λ n. true)
          loaded
          (pos 7)
          (queue_of [])
        ≡ some (pos 0, record loaded { global_consular_districts = all' }, q'))
    × AreFound
        (list_queue ConsularDistrict)
        (district 7 ∷ district 8 ∷ district 7 ∷ [])
        (matching (pos 7) (district 7 ∷ district 8 ∷ district 7 ∷ []))
        (all', q')
sce_find_consular_districts_by_mae_code-AreFound_example =
    sce_find_consular_districts_by_mae_code-AreFound (list_queue ConsularDistrict) sqlite loaded
      (λ n. true) (pos 7) (district 7 ∷ district 8 ∷ district 7 ∷ []) [] (pos 0) (queue_of [])
      (λ n. refl) (at_node 0 (holds refl refl (omega arith) (omega arith)))
      (holds refl refl (omega arith) (omega arith)) (omega arith)

abbrev germany_file : DataFile sqlite (list_queue ConsularDistrict)
germany_file = (codes "/usr/local/share/sce/cmae.049.mth", true, some [], some entity)

germany_file-HaveBuffers : HaveBuffers sqlite (list_queue ConsularDistrict) (germany_file ∷ [])
unfolding digits_of is_digit
germany_file-HaveBuffers = ((refl, omega arith), tt)

sce_init-load_all_example :
    (sce' : Sce sqlite (list_queue ConsularDistrict)) × (load_all sqlite
        (list_queue ConsularDistrict)
        (germany_file ∷ [])
        (sce_init sqlite (list_queue ConsularDistrict) loaded)
      ≡ some sce')
    × IsTable sqlite (list_queue ConsularDistrict) sce'
sce_init-load_all_example =
    sce_init-load_all sqlite (list_queue ConsularDistrict) (germany_file ∷ []) loaded
      germany_file-HaveBuffers
