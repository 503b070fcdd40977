-- ===== src/Xsqlite/Found.antt =====
-- Where xmalloc finds memory for their records, the queries of src/xsqlite.c do not fault.
use secoli_sced.Base.{
  Bytes, ℕ, ◌≡◌, ◌≢◌, refl, Bool, true, false, inl, inr, List, [], ◌∷◌, Option, none, some,
  Option-cases, if◌then◌else◌, ◌==◌, length, ℤ, not,
}
use secoli_sced.Consulate.{Consulate, consulate_set_mae_code}
use secoli_sced.Location.{Location}
use secoli_sced.Queue.Glib.{GQueue}
use secoli_sced.Queue.{Queue, queue_push}
use secoli_sced.Xsqlite.Locations.{location_of_row-some}
use secoli_sced.Xsqlite.{
  Row, Sqlite, Binding, column, add_row, bind_all, fetch, query, location_of_row, consulate_of_row,
  zipcode_of_row, xsqlite_query_locations, xsqlite_query_consulates,
  xsqlite_query_zip_code_specimina,
}
use secoli_sced.Zipcode.{Zipcode, zipcode_set_cod_state, zipcode_set_code}

pub if-some :
    {A : Type 0} {x y : Option A} (b : Bool)
    → (b ≡ true → x ≢ none)
    → (b ≡ false → y ≢ none)
    → (if b then x else y) ≢ none
if-some true f g = f refl
if-some false f g = g refl

-- What is found for all.
abbrev pub FindsAll : (ℕ → Bool) → Type 0
FindsAll memory = (n : ℕ) → memory n ≡ true

module _ {T : Type 0} (G : GQueue T) (width : ℕ) (make : Bool → Row → Option T)
    (makes : (row : Row) → make true row ≢ none) where
  pushed-some :
      (r : Option T) (q : Option (Queue G))
      → r ≢ none
      → ◌≢◌ {A = Option (Option (Queue G))}
          (elim r [ none ↦ none | some d ↦ some (queue_push G q (some d)).1 ])
          none
  pushed-some none q h = absurd (h refl)
  pushed-some (some d) q h = λ u. cc u

  add_row-some : (row : Row) (q : Option (Queue G)) → add_row G width make true row q ≢ none
  add_row-some row q =
      if-some (length row == width) (λ t. pushed-some (make true row) q (makes row)) (λ f u. cc u)

  module _ (memory : ℕ → Bool) (finds : FindsAll memory) where
    fetch-some :
        (rows : List Row) (is_complete : Bool) (q : Option (Queue G))
        → fetch G width make memory rows is_complete q ≢ none
    unfolding fetch
    fetch-some [] is_complete q = λ u. cc u
    fetch-some (row ∷ rows) is_complete q =
        elim (Option-cases (add_row G width make (memory (length rows)) row q)) [
          | inl e ↦ absurd (add_row-some row q (rw (finds (length rows)) at e))
          | inr (q', e) ↦ rw (e, fetch) (fetch-some rows is_complete q')
        ]

    query-some :
        (S : Sqlite) (db : Option S.Db) (sql : Option Bytes) (bindings : List Binding)
        (q : Option (Queue G))
        → query S G width make memory db sql bindings q ≢ none
    unfolding query
    query-some S none sql bindings q = λ u. cc u
    query-some S (some db) none bindings q = λ u. cc u
    query-some S (some db) (some sql) bindings q =
        if-some (not (S.prepares db sql)) (λ t u. cc u)
          λ _.
            if-some (not (bind_all S db sql [] bindings)) (λ t u. cc u)
              λ _.
                fetch-some (S.answer db sql bindings).rows (S.answer db sql bindings).is_complete q

consulate_of_row-some : (row : Row) → consulate_of_row true row ≢ none
unfolding consulate_of_row consulate_set_mae_code
consulate_of_row-some row = elim (Option-cases (column row 0)) [
  | inl e ↦ rw (e, consulate_of_row) λ u. cc u
  | inr (v, e) ↦ rw (e, consulate_of_row) λ u. cc u
]

set_code-some : (z : Zipcode) (v : Option Bytes) → (zipcode_set_code (some z) v).1 ≢ none
unfolding zipcode_set_code
set_code-some z none = λ u. cc u
set_code-some z (some v) = λ u. cc u

zipcode_of_row-some : (row : Row) → zipcode_of_row true row ≢ none
unfolding zipcode_of_row zipcode_set_cod_state
zipcode_of_row-some row = elim (Option-cases (column row 0)) [
  | inl e ↦ rw (e, zipcode_of_row) (set_code-some _ (column row 1))
  | inr (v, e) ↦ rw (e, zipcode_of_row) (set_code-some _ (column row 1))
]

module _ (S : Sqlite) (memory : ℕ → Bool) (finds : FindsAll memory) where
  pub xsqlite_query_locations-some :
      (G : GQueue Location) (db : Option S.Db) (sql name province : Option Bytes) (sce_code : ℤ)
      (zipcode : Option Bytes) (q : Option (Queue G))
      → xsqlite_query_locations S G memory db sql name province sce_code zipcode q ≢ none
  unfolding xsqlite_query_locations
  xsqlite_query_locations-some G db sql name province sce_code zipcode q =
      query-some G 8 (λ found. location_of_row found zipcode) (location_of_row-some zipcode) memory
        finds S db sql _ q

  pub xsqlite_query_consulates-some :
      (G : GQueue Consulate) (db : Option S.Db) (sql : Option Bytes) (cod_state : ℤ)
      (territorial_competence : Bool) (q : Option (Queue G))
      → xsqlite_query_consulates S G memory db sql cod_state territorial_competence q ≢ none
  unfolding xsqlite_query_consulates
  xsqlite_query_consulates-some G db sql cod_state territorial_competence q =
      query-some G 1 consulate_of_row consulate_of_row-some memory finds S db sql _ q

  pub xsqlite_query_zip_code_specimina-some :
      (G : GQueue Zipcode) (db : Option S.Db) (sql : Option Bytes) (q : Option (Queue G))
      → xsqlite_query_zip_code_specimina S G memory db sql q ≢ none
  unfolding xsqlite_query_zip_code_specimina
  xsqlite_query_zip_code_specimina-some G db sql q =
      query-some G 2 zipcode_of_row zipcode_of_row-some memory finds S db sql _ q
