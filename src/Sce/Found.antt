-- ===== src/Sce/Found.antt =====
-- Where xmalloc finds memory for the records, the searches of src/sce.c and src/xsqlite.c do not
-- fault.
use secoli_sced.Base.{
  ℕ, zero, suc, List, [], ◌∷◌, Option-cases, length, Bytes, ◌≢◌, inl, inr, Bool, true, Option, none,
  some, ℤ, eqb_ℤ,
}
use secoli_sced.ConsularDistrict.{ConsularDistrict, consular_district_get_mae_code}
use secoli_sced.Consulate.{Consulate}
use secoli_sced.Location.{Location}
use secoli_sced.Queue.Glib.{GQueue}
use secoli_sced.Queue.{Queue, queue_get_next}
use secoli_sced.Sce.Districts.{copied}
use secoli_sced.Sce.Find.{add_district, find_districts, call_over_entities}
use secoli_sced.Search.{Glib}
use secoli_sced.Xsqlite.Find.{
  xsqlite_find_locations_by_name, xsqlite_find_locations_by_sce_code,
  xsqlite_find_locations_by_zipcode, xsqlite_find_consulates,
}
use secoli_sced.Xsqlite.Found.{
  FindsAll, if-some, xsqlite_query_locations-some, xsqlite_query_consulates-some,
}
use secoli_sced.Xsqlite.{Sqlite}

-- Where memory is found for all, the loops of src/sce.c do not fault.
pub call_over_entities-some {ℓ κ} :
    {E : Type ℓ} {X : Type κ} (handler : ℕ → E → X → Option (ℤ × X)) (table : List (Option E))
    (target : X)
    → ((n : ℕ) (e : E) (x : X) → handler n e x ≢ none)
    → call_over_entities handler table target ≢ none
unfolding call_over_entities
call_over_entities-some handler [] target h = λ u. cc u
call_over_entities-some handler (none ∷ table) target h =
    call_over_entities-some handler table target h
call_over_entities-some handler (some e ∷ table) target h =
    elim (Option-cases (handler (length table) e target)) [
      | inl f ↦ absurd (h (length table) e target f)
      | inr ((status, target'), f) ↦
          rw (f, call_over_entities) (call_over_entities-some handler table target' h)
    ]

module _ (D : GQueue ConsularDistrict) (memory : ℕ → Bool) (finds : FindsAll memory) (c : ℤ) where
  add_district-some :
      (y : ConsularDistrict) (q : Option (Queue D)) → add_district D true c y q ≢ none
  add_district-some y q =
      if-some (eqb_ℤ (consular_district_get_mae_code (some y)) c) (λ t. rw (copied y) λ u. cc u)
        (λ f u. cc u)

  pub find_districts-some :
      (fuel : ℕ) (r : Option ConsularDistrict × Option (Queue D)) (q : Option (Queue D))
      → find_districts D memory fuel c r q ≢ none
  unfolding find_districts
  find_districts-some zero (v, all) q = λ u. cc u
  find_districts-some (suc fuel) (none, all) q = λ u. cc u
  find_districts-some (suc fuel) (some y, all) q =
      elim (Option-cases (add_district D (memory fuel) c y q)) [
        | inl e ↦ absurd (add_district-some y q (rw (finds fuel) at e))
        | inr (q', e) ↦ rw (e, find_districts) (find_districts-some fuel (queue_get_next D all) q')
      ]

module _ (S : Sqlite) (G : Glib) (memory : ℕ → Bool) (finds : FindsAll memory) where
  pub by_name-some :
      (db : Option S.Db) (name province : Option Bytes) (in_italy : Bool)
      (q : Option (Queue (G Location)))
      → xsqlite_find_locations_by_name S (G Location) memory db name province in_italy q ≢ none
  unfolding xsqlite_find_locations_by_name
  by_name-some db name province in_italy q =
      xsqlite_query_locations-some S memory finds (G Location) db _ name province _ none q

  pub by_sce_code-some :
      (db : Option S.Db) (sce_code : ℤ) (in_italy : Bool) (q : Option (Queue (G Location)))
      → xsqlite_find_locations_by_sce_code S (G Location) memory db sce_code in_italy q ≢ none
  unfolding xsqlite_find_locations_by_sce_code
  by_sce_code-some db sce_code in_italy q =
      xsqlite_query_locations-some S memory finds (G Location) db _ none none sce_code none q

  pub consulates_of-some :
      (db : Option S.Db) (c : ℤ) (territorial : Bool) (q : Option (Queue (G Consulate)))
      → xsqlite_find_consulates S (G Consulate) memory db c territorial q ≢ none
  unfolding xsqlite_find_consulates
  consulates_of-some db c territorial q =
      xsqlite_query_consulates-some S memory finds (G Consulate) db _ c territorial q

pub by_zipcode-some :
    (S : Sqlite) (G : Glib) (memory : ℕ → ℕ → Bool) (finds : (k : ℕ) → FindsAll (memory k))
    (db : Option S.Db) (rest z : Bytes) (c : ℤ) (q : Option (Queue (G Location)))
    → xsqlite_find_locations_by_zipcode S (G Location) memory rest db z c q ≢ none
unfolding xsqlite_find_locations_by_zipcode
by_zipcode-some S G memory finds db rest z c q =
    rw (finds 1 0, xsqlite_find_locations_by_zipcode)
      (xsqlite_query_locations-some S (memory 0) (finds 0) (G Location) db _ none none _ _ q)
