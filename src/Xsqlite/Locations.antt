-- ===== src/Xsqlite/Locations.antt =====
-- The locations that a query finds.
use secoli_sced.Base.{
  ap, ◌∙◌, Bytes, ◌+◌, ◌<◌, ◌≡◌, refl, fun_ext, ℕ, Bool, true, false, ◌≢◌, List, [], Option, none,
  some, length, take, int_limit, ℤ, pos,
}
use secoli_sced.Clib.{atol, atoi}
use secoli_sced.Location.{
  Location, new_location, location_set_sce_code, location_set_cons_mae_code, location_set_zip_code,
  location_set_province, location_set_istat_code, location_set_synonym, location_set_name,
  location_set_full_name,
}
use secoli_sced.Queue.Glib.{GQueue}
use secoli_sced.Queue.Holds.{Holds}
use secoli_sced.Queue.{Queue, xmalloc}
use secoli_sced.Xsqlite.Fetch.{Fetched, query-Fetched}
use secoli_sced.Xsqlite.{
  Row, Sqlite, column, bind_all, location_of_row, zip_given, location_bindings,
  xsqlite_query_locations,
}

-- What a column stands for, with the default where it is NULL.
abbrev pub value_or {ℓ} : {V : Type ℓ} → V → (Bytes → V) → Option Bytes → V
value_or old f none = old
value_or old f (some s) = f s

-- The location that stands in a row.
abbrev pub location_in : Option Bytes → Row → Location
location_in zipcode row = record {
  sce_code = value_or (pos 0) atol (column row 0);
  cons_mae_code = value_or (pos 0) atoi (column row 1);
  zip_code = zip_given zipcode row;
  province = value_or [] (take 2) (column row 3);
  istat_code = value_or (pos 0) atoi (column row 4);
  synonym = column row 5;
  name = column row 6;
  full_name = column row 7;
}

set_sce_code :
    (l : Location) (v : Option Bytes)
    → (location_set_sce_code (some l) v).1
      ≡ some (record l { sce_code = value_or l.sce_code atol v })
unfolding location_set_sce_code
set_sce_code l none = refl
set_sce_code l (some s) = refl

set_cons_mae_code :
    (l : Location) (v : Option Bytes)
    → (location_set_cons_mae_code (some l) v).1
      ≡ some (record l { cons_mae_code = value_or l.cons_mae_code atoi v })
unfolding location_set_cons_mae_code
set_cons_mae_code l none = refl
set_cons_mae_code l (some s) = refl

set_zip_code :
    (l : Location) (v : Option Bytes)
    → (location_set_zip_code (some l) v).1
      ≡ some (record l { zip_code = value_or l.zip_code (λ s. some s) v })
unfolding location_set_zip_code
set_zip_code l none = refl
set_zip_code l (some s) = refl

set_province :
    (l : Location) (v : Option Bytes)
    → (location_set_province (some l) v).1
      ≡ some (record l { province = value_or l.province (take 2) v })
unfolding location_set_province
set_province l none = refl
set_province l (some s) = refl

set_istat_code :
    (l : Location) (v : Option Bytes)
    → (location_set_istat_code (some l) v).1
      ≡ some (record l { istat_code = value_or l.istat_code atoi v })
unfolding location_set_istat_code
set_istat_code l none = refl
set_istat_code l (some s) = refl

set_synonym :
    (l : Location) (v : Option Bytes)
    → (location_set_synonym (some l) v).1
      ≡ some (record l { synonym = value_or l.synonym (λ s. some s) v })
unfolding location_set_synonym
set_synonym l none = refl
set_synonym l (some s) = refl

set_name :
    (l : Location) (v : Option Bytes)
    → (location_set_name (some l) v).1 ≡ some (record l { name = value_or l.name (λ s. some s) v })
unfolding location_set_name
set_name l none = refl
set_name l (some s) = refl

set_full_name :
    (l : Location) (v : Option Bytes)
    → (location_set_full_name (some l) v).1
      ≡ some (record l { full_name = value_or l.full_name (λ s. some s) v })
unfolding location_set_full_name
set_full_name l none = refl
set_full_name l (some s) = refl

text_kept : (v : Option Bytes) → value_or none (λ s. some s) v ≡ v
text_kept none = refl
text_kept (some s) = refl

location_of_row-eq :
    (zipcode : Option Bytes) (row : Row)
    → location_of_row true zipcode row ≡ some (location_in zipcode row)
unfolding location_of_row
location_of_row-eq zipcode row =
    let e0 = set_sce_code new_location (column row 0) in
    let e1 =
      ap (λ l. (location_set_cons_mae_code l (column row 1)).1) e0
      ∙ set_cons_mae_code _ (column row 1) in
    let e2 =
      ap (λ l. (location_set_zip_code l (zip_given zipcode row)).1) e1
      ∙ set_zip_code _ (zip_given zipcode row) in
    let e3 =
      ap (λ l. (location_set_province l (column row 3)).1) e2 ∙ set_province _ (column row 3) in
    let e4 =
      ap (λ l. (location_set_istat_code l (column row 4)).1) e3 ∙ set_istat_code _ (column row 4) in
    let e5 =
      ap (λ l. (location_set_synonym l (column row 5)).1) e4 ∙ set_synonym _ (column row 5) in
    let e6 = ap (λ l. (location_set_name l (column row 6)).1) e5 ∙ set_name _ (column row 6) in
    let e7 =
      ap (λ l. (location_set_full_name l (column row 7)).1) e6 ∙ set_full_name _ (column row 7) in
    e7
    ∙ ap some λ i. record {
      sce_code = value_or (pos 0) atol (column row 0);
      cons_mae_code = value_or (pos 0) atoi (column row 1);
      zip_code = text_kept (zip_given zipcode row) i;
      province = value_or [] (take 2) (column row 3);
      istat_code = value_or (pos 0) atoi (column row 4);
      synonym = text_kept (column row 5) i;
      name = text_kept (column row 6) i;
      full_name = text_kept (column row 7) i;
    }

made :
    (zipcode : Option Bytes) (memory : Bool) (row : Row)
    → location_of_row memory zipcode row ≡ xmalloc memory (location_in zipcode row)
unfolding location_of_row location_set_full_name location_set_name location_set_synonym
    location_set_istat_code location_set_province location_set_zip_code location_set_cons_mae_code
    location_set_sce_code
made zipcode true row = location_of_row-eq zipcode row
made zipcode false row = refl

pub location_of_row-some :
    (zipcode : Option Bytes) (row : Row) → location_of_row true zipcode row ≢ none
location_of_row-some zipcode row e = cc (location_of_row-eq zipcode row)

-- When SQLite takes the statement and its parameters, `xsqlite_query_locations` adds behind what
-- the queue holds one location for each row with eight columns, in the order of the rows, with the
-- columns' values, and the given zip code in place of the third column if there is one; it returns
-- 0 if the rows end by SQLITE_DONE, and -1 if they end by an error. xmalloc finds memory for the
-- locations, and the queue has fewer than 2^31 nodes with one for each row.
pub xsqlite_query_locations-Fetched :
    (S : Sqlite) (G : GQueue Location) (memory : ℕ → Bool) (db : S.Db) (sql : Bytes)
    (name province : Option Bytes) (sce_code : ℤ) (zipcode : Option Bytes) (xs : List Location)
    (p : ℤ) (q : Option (Queue G))
    → ((n : ℕ) → memory n ≡ true)
    → S.prepares db sql ≡ true
    → bind_all S db sql [] (location_bindings name province sce_code zipcode) ≡ true
    → Holds G xs p q
    → length xs + length (S.answer db sql (location_bindings name province sce_code zipcode)).rows
      < int_limit
    → let answer = S.answer db sql (location_bindings name province sce_code zipcode) in
      Fetched G 8
        (location_in zipcode)
        xs
        answer.rows
        answer.is_complete
        (xsqlite_query_locations S G memory (some db) (some sql) name province sce_code zipcode q)
unfolding xsqlite_query_locations
xsqlite_query_locations-Fetched S G memory db sql name province sce_code zipcode xs p q finds
      prepared bound h l =
    rw (fun_ext λ found. fun_ext (made zipcode found))
      (query-Fetched G 8 (location_in zipcode) S memory db sql _ xs p q finds prepared bound h l)
