-- ===== src/Xsqlite.antt =====
-- src/xsqlite.c: the queries, over an interface to SQLite, which is not part of the repository.
pub mod Fetch
pub mod Locations
pub mod Find
pub mod Found
mod Tests
use secoli_sced.Base.{
  Bytes, codes, ℕ, Bool, true, false, not, List, [], ◌∷◌, ◌++◌, Option, none, some, if◌then◌else◌,
  ◌==◌, join, length, get_elem?, ℤ, pos, minus_one, eqb_ℤ,
}
use secoli_sced.ConsularDistrict.{
  ConsularDistrict, sce_code_unset, consular_district_create, consular_district_set_mae_code,
  consular_district_set_territory_name, consular_district_set_sce_code,
}
use secoli_sced.Consulate.{Consulate, consulate_create, consulate_set_mae_code}
use secoli_sced.Location.{
  Location, location_create, location_set_sce_code, location_set_cons_mae_code,
  location_set_zip_code, location_set_province, location_set_istat_code, location_set_synonym,
  location_set_name, location_set_full_name,
}
use secoli_sced.Queue.Glib.{GQueue}
use secoli_sced.Queue.{Queue, queue_push}
use secoli_sced.Zipcode.{Zipcode, zipcode_create, zipcode_set_cod_state, zipcode_set_code}

-- A value bound to a parameter of a statement, by the parameter's number.
pub data Binding : Type 0 where
  text : ℕ → Bytes → Binding
  integer : ℕ → ℤ → Binding

-- A row is what `sqlite3_column_text` gives for its columns.
abbrev pub Row : Type 0
Row = List (Option Bytes)

-- What `sqlite3_step` gives: its rows, and whether they end by SQLITE_DONE or by an error.
pub record Answer : Type 0 where
  pub rows : List Row
  pub is_complete : Bool

-- The last field is what a prepared statement with these parameters answers. A bind is asked
-- with those that went before it.
pub record Sqlite : Type 1 where
  pub Db : Type 0
  pub prepares : Db → Bytes → Bool
  pub binds : Db → Bytes → List Binding → Bool
  pub answer : Db → Bytes → List Binding → Answer

abbrev pub column : Row → ℕ → Option Bytes
column row i = join (get_elem? row i)

-- `make` gives the record of a row by what xmalloc finds for it, and `none` where it is written
-- through NULL.
module _ {T : Type 0} (G : GQueue T) (width : ℕ) (make : Bool → Row → Option T) where
  -- The body of each loop `while (1)`: a row of another width is passed over.
  abbrev pub add_row : Bool → Row → Option (Queue G) → Option (Option (Queue G))
  add_row memory row q =
      if length row == width
      then elim (make memory row) [ none ↦ none | some r ↦ some (queue_push G q (some r)).1 ]
      else some q

  -- `memory n` is what xmalloc finds for the record of the row with `n` rows behind it.
  unfoldable pub fetch :
      (ℕ → Bool) → List Row → Bool → Option (Queue G) → Option (ℤ × Option (Queue G))
  fetch memory [] is_complete q = some (if is_complete then pos 0 else minus_one, q)
  fetch memory (row ∷ rows) is_complete q = elim (add_row (memory (length rows)) row q) [
    | none ↦ none
    | some q' ↦ fetch memory rows is_complete q'
  ]

abbrev pub zip_given : Option Bytes → Row → Option Bytes
zip_given none row = column row 2
zip_given (some zipcode) row = some zipcode

-- With a zip code given, it is the location's; else it is in the third column.
unfoldable pub location_of_row : Bool → Option Bytes → Row → Option Location
location_of_row memory zipcode row =
    let l0 = (location_set_sce_code (location_create memory) (column row 0)).1 in
    let l1 = (location_set_cons_mae_code l0 (column row 1)).1 in
    let l2 = (location_set_zip_code l1 (zip_given zipcode row)).1 in
    let l3 = (location_set_province l2 (column row 3)).1 in
    let l4 = (location_set_istat_code l3 (column row 4)).1 in
    let l5 = (location_set_synonym l4 (column row 5)).1 in
    let l6 = (location_set_name l5 (column row 6)).1 in (location_set_full_name l6 (column row 7)).1

unfoldable pub consulate_of_row : Bool → Row → Option Consulate
consulate_of_row memory row = (consulate_set_mae_code (consulate_create memory) (column row 0)).1

unfoldable pub consular_district_of_row : Bool → Row → Option ConsularDistrict
consular_district_of_row memory row =
    let c0 = (consular_district_set_mae_code (consular_district_create memory) (column row 0)).1 in
    let c1 = (consular_district_set_territory_name c0 (column row 1)).1 in
    (consular_district_set_sce_code c1 (column row 2)).1

unfoldable pub zipcode_of_row : Bool → Row → Option Zipcode
zipcode_of_row memory row =
    let z0 = (zipcode_set_cod_state (zipcode_create memory) (column row 0)).1 in
    (zipcode_set_code z0 (column row 1)).1

-- The parameters that `xsqlite_query_locations` binds, in order.
unfoldable pub location_bindings : Option Bytes → Option Bytes → ℤ → Option Bytes → List Binding
location_bindings (some name) none sce_code zipcode = text 1 name ∷ []
location_bindings (some name) (some province) sce_code zipcode = text 1 name ∷ text 2 province ∷ []
location_bindings none province sce_code zipcode =
    if not (eqb_ℤ sce_code sce_code_unset)
    then integer 1 sce_code ∷ []
    else elim zipcode [ none ↦ [] | some z ↦ text 1 z ∷ [] ]

module _ (S : Sqlite) where
  -- Each bind must succeed.
  unfoldable pub bind_all : S.Db → Bytes → List Binding → List Binding → Bool
  bind_all db sql bound [] = true
  bind_all db sql bound (b ∷ bs) =
      let rest = bind_all db sql (bound ++ b ∷ []) bs in
      if S.binds db sql (bound ++ b ∷ []) then rest else false

  -- What the four `xsqlite_query_…` functions have in common.
  module _ {T : Type 0} (G : GQueue T) (width : ℕ) (make : Bool → Row → Option T) where
    unfoldable pub query :
        (ℕ → Bool)
        → Option S.Db
        → Option Bytes
        → List Binding
        → Option (Queue G)
        → Option (ℤ × Option (Queue G))
    unfolding bind_all fetch
    query memory none sql bindings q = some (minus_one, q)
    query memory (some db) none bindings q = some (minus_one, q)
    query memory (some db) (some sql) bindings q =
        if not (S.prepares db sql)
        then some (minus_one, q)
        else if not (bind_all db sql [] bindings)
        then some (minus_one, q)
        else let answer = S.answer db sql bindings in
          fetch G width make memory answer.rows answer.is_complete q

  abbrev Query : {T : Type 0} → GQueue T → Type 0
  Query G = Option (Queue G) → Option (ℤ × Option (Queue G))

  unfoldable pub xsqlite_query_locations :
      (G : GQueue Location)
      → (ℕ → Bool)
      → Option S.Db
      → Option Bytes
      → Option Bytes
      → Option Bytes
      → ℤ
      → Option Bytes
      → Query G
  unfolding query
  xsqlite_query_locations G memory db sql name province sce_code zipcode locations =
      query G 8 (λ found. location_of_row found zipcode) memory db sql
        (location_bindings name province sce_code zipcode) locations

  unfoldable pub xsqlite_query_consulates :
      (G : GQueue Consulate) → (ℕ → Bool) → Option S.Db → Option Bytes → ℤ → Bool → Query G
  unfolding query
  xsqlite_query_consulates G memory db sql cod_state territorial_competence consulates =
      query G 1 consulate_of_row memory db sql
        (if not territorial_competence then integer 1 cod_state ∷ [] else []) consulates

  unfoldable pub xsqlite_query_consular_districts :
      (G : GQueue ConsularDistrict) → (ℕ → Bool) → Option S.Db → Option Bytes → Query G
  unfolding query
  xsqlite_query_consular_districts G memory db sql districts =
      query G 3 consular_district_of_row memory db sql [] districts

  unfoldable pub xsqlite_query_zip_code_specimina :
      (G : GQueue Zipcode) → (ℕ → Bool) → Option S.Db → Option Bytes → Query G
  unfolding query
  xsqlite_query_zip_code_specimina G memory db sql specimina =
      query G 2 zipcode_of_row memory db sql [] specimina
