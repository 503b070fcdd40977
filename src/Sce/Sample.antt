-- ===== src/Sce/Sample.antt =====
-- A table with one entity, and three districts, for the tests.
use secoli_sced.Base.{
  codes, ℕ, zero, suc, ◌≡◌, refl, ap, inr, true, List, [], ◌∷◌, map, Option, none, some, length,
  pos,
}
use secoli_sced.ConsularDistrict.{ConsularDistrict}
use secoli_sced.Queue.Glib.{list_queue}
use secoli_sced.Queue.{Queue}
use secoli_sced.Sce.State.{IsTable, IsCode}
use secoli_sced.Sce.{Sce, SceEntity, is_state, sce_got_italian_cod_state}
use secoli_sced.Xsqlite.{Row, Sqlite}

abbrev pub sqlite : Sqlite
sqlite = record {
  Db = List Row;
  prepares = λ db sql. true;
  binds = λ db sql bindings. true;
  answer = λ db sql bindings. record { rows = db; is_complete = true };
}

abbrev repeat : {A : Type 0} → ℕ → A → List A
repeat zero a = []
repeat (suc n) a = a ∷ repeat n a

length-repeat : {A : Type 0} (n : ℕ) (a : A) → length (repeat n a) ≡ n
length-repeat zero a = refl
length-repeat (suc n) a = ap suc (length-repeat n a)

abbrev pub district : ℕ → ConsularDistrict
district n = record { mae_code = pos n; territory_name = some (codes "T"); sce_code = pos 1 }

abbrev pub queue_of : List ConsularDistrict → Option (Queue (list_queue ConsularDistrict))
queue_of xs = some (record { queue = map some xs; position = pos 0 })

abbrev pub entity : SceEntity sqlite
entity = record { db = some []; locations = none; location_count = pos 0 }

abbrev pub loaded : Sce sqlite (list_queue ConsularDistrict)
loaded = record {
  entity_table = repeat 1024 none;
  entity_000 = some entity;
  entity_italy = none;
  global_consular_districts = queue_of (district 7 ∷ district 8 ∷ district 7 ∷ []);
}

pub loaded-IsTable : IsTable sqlite (list_queue ConsularDistrict) loaded
loaded-IsTable = length-repeat {A = Option (SceEntity sqlite)} 1024 none

pub germany : IsCode (pos 49)
unfolding is_state sce_got_italian_cod_state
germany = inr refl
