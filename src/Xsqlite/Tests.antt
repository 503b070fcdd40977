-- ===== src/Xsqlite/Tests.antt =====
-- A database of two rows, and the theorem at it.
use secoli_sced.Base.{codes, refl, arith, true, List, [], ◌∷◌, Option, none, some, pos, minus_one}
use secoli_sced.Location.{Location}
use secoli_sced.Queue.Glib.{list_queue}
use secoli_sced.Queue.Holds.{holds}
use secoli_sced.Queue.{Queue}
use secoli_sced.Xsqlite.{Row, Sqlite, bind_all, location_bindings, xsqlite_query_locations}
use secoli_sced.Xsqlite.Fetch.{Fetched}
use secoli_sced.Xsqlite.Locations.{location_in, xsqlite_query_locations-Fetched}

abbrev prato : Row
prato =
    some (codes "12")
    ∷ some (codes "3")
    ∷ none
    ∷ some (codes "PO")
    ∷ none
    ∷ none
    ∷ some (codes "Prato")
    ∷ none
    ∷ []

-- Every statement gives the row above and a row that is too short.
abbrev database : Sqlite
database = record {
  Db = List Row;
  prepares = λ db sql. true;
  binds = λ db sql bindings. true;
  answer = λ db sql bindings. record { rows = db; is_complete = true };
}

abbrev empty : Option (Queue (list_queue Location))
empty = some (record { queue = []; position = minus_one })

xsqlite_query_locations-Fetched_example :
    Fetched (list_queue Location) 8 (location_in none) [] (prato ∷ (none ∷ []) ∷ []) true (
      xsqlite_query_locations database
        (list_queue Location)
        (λ n. true)
        (some (prato ∷ (none ∷ []) ∷ []))
        (some (codes "SELECT"))
        (some (codes "Pra"))
        none
        (pos 0)
        none
        empty)
unfolding bind_all location_bindings
xsqlite_query_locations-Fetched_example =
    xsqlite_query_locations-Fetched database (list_queue Location) (λ n. true)
      (prato ∷ (none ∷ []) ∷ []) (codes "SELECT") (some (codes "Pra")) none (pos 0) none []
      minus_one empty (λ n. refl) refl refl (holds refl refl (omega arith) (omega arith))
      (omega arith)
