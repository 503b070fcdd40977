-- ===== src/Sce/Districts.antt =====
-- The consular districts of a consulate, among those that all the entities have.
use secoli_sced.Base.{
  Bool, true, Bytes, ℕ, zero, suc, ◌+◌, ◌<◌, ◌≡◌, refl, ◌∙◌, sym, inl, inr, Bool-cases, List, [],
  ◌∷◌, ◌++◌, Option, none, some, arith, length, length-append, if◌then◌else◌, int_limit, ℤ, pos,
  eqb_ℤ,
}
use mathlib.Core.List.{append-nil, append_assoc}
use secoli_sced.ConsularDistrict.{
  ConsularDistrict, new_district, consular_district_get_mae_code,
  consular_district_get_territory_name, consular_district_get_sce_code,
  consular_district_set_mae_code_int, consular_district_set_sce_code_int,
  consular_district_set_territory_name,
}
use secoli_sced.Queue.Ends.{queue_push-Holds}
use secoli_sced.Queue.Glib.{GQueue}
use secoli_sced.Queue.Holds.{
  Holds, Waits, at_node, before, queue_get_first-Holds, queue_get_first-none,
}
use secoli_sced.Queue.Loops.{rounds}
use secoli_sced.Queue.Walk.{next_node, past_last, rounds-lt}
use secoli_sced.Queue.{Queue, queue_get_first, queue_get_next, queue_push}
use secoli_sced.Sce.Find.{
  copy_district, add_district, find_districts, sce_find_consular_districts_by_mae_code,
}
use secoli_sced.Sce.{Sce}
use secoli_sced.Xsqlite.{Sqlite}

-- The districts of a consulate, in their order.
unfoldable pub matching : ℤ → List ConsularDistrict → List ConsularDistrict
matching mae_code [] = []
matching mae_code (c ∷ cs) =
    let rest = matching mae_code cs in if eqb_ℤ c.mae_code mae_code then c ∷ rest else rest

unfoldable built : ℤ → Option Bytes → ℤ → Option ConsularDistrict
built m t s =
    let c1 = (consular_district_set_mae_code_int (some new_district) m).1 in
    (consular_district_set_sce_code_int (consular_district_set_territory_name c1 t).1 s).1

built-eq :
    (m : ℤ) (t : Option Bytes) (s : ℤ)
    → built m t s ≡ some (record { mae_code = m; territory_name = t; sce_code = s })
unfolding built consular_district_set_mae_code_int consular_district_set_sce_code_int
    consular_district_set_territory_name
built-eq m none s = refl
built-eq m (some t) s = refl

pub copied : (c : ConsularDistrict) → copy_district true c ≡ some c
unfolding copy_district built consular_district_get_mae_code consular_district_get_territory_name
    consular_district_get_sce_code
copied c = built-eq c.mae_code c.territory_name c.sce_code

module _ (D : GQueue ConsularDistrict) where
  -- Both queues after the search: the districts `ds` are still in the one, and the other has got
  -- those of the consulate behind what it held.
  abbrev pub AreFound :
      List ConsularDistrict → List ConsularDistrict → Option (Queue D) × Option (Queue D) → Type 0
  AreFound ds fs (all, q) = ((p : ℤ) × Holds D ds p all) × ((p : ℤ) × Holds D fs p q)

  -- The queue of results after one district.
  add_district-Holds :
      (mae_code : ℤ) (fs ys : List ConsularDistrict) (p : ℤ) (y : ConsularDistrict)
      (q : Option (Queue D))
      → Holds D fs p q
      → length fs + suc (length ys) < int_limit
      → (fs' : List ConsularDistrict) × (p' : ℤ) × (q' : Option (Queue D)) × (add_district D true
            mae_code y q
          ≡ some q')
        × Holds D fs' p' q'
        × (length fs' + length ys < int_limit)
        × (fs' ++ matching mae_code ys ≡ fs ++ matching mae_code (y ∷ ys))
  unfolding matching consular_district_get_mae_code
  add_district-Holds mae_code fs ys p y q h l = elim (Bool-cases (eqb_ℤ y.mae_code mae_code)) [
    | inl hit ↦
        let (s, h') = queue_push-Holds D y h (omega arith) in
        (
          fs ++ y ∷ [],
          pos (length fs),
          (queue_push D q (some y)).1,
          rw (hit, copied y) refl,
          h',
          omega (arith, length-append fs (y ∷ [])),
          rw (hit, matching) (append_assoc fs (y ∷ []) (matching mae_code ys)),
        )
    | inr miss ↦ (fs, p, q, rw miss refl, h, omega arith, rw (miss, matching) refl)
  ]

  module _ (memory : ℕ → Bool) (finds : (n : ℕ) → memory n ≡ true) (mae_code : ℤ) where
    find_districts-none :
        (fuel : ℕ) (all q : Option (Queue D))
        → find_districts D memory fuel mae_code (none, all) q ≡ some (all, q)
    unfolding find_districts
    find_districts-none zero all q = refl
    find_districts-none (suc fuel) all q = refl

    find_districts-next :
        (fuel : ℕ) (y : ConsularDistrict) (all q q' : Option (Queue D))
        → add_district D true mae_code y q ≡ some q'
        → find_districts D memory (suc fuel) mae_code (some y, all) q
          ≡ find_districts D memory fuel mae_code (queue_get_next D all) q'
    unfolding find_districts
    find_districts-next fuel y all q q' e = rw (finds fuel, e, find_districts) refl

    -- The loop ends, and both queues are as they should be.
    abbrev Ends :
        List ConsularDistrict
        → List ConsularDistrict
        → Option (Option (Queue D) × Option (Queue D))
        → Type 0
    Ends ds fs r =
        (both : Option (Queue D) × Option (Queue D)) × (r ≡ some both) × AreFound ds fs both

    find_districts-Ends :
        (fuel : ℕ) (r : Option ConsularDistrict × Option (Queue D)) (xs : List ConsularDistrict)
        (y : ConsularDistrict) (ys fs : List ConsularDistrict) (p : ℤ) (q : Option (Queue D))
        → r.0 ≡ some y
        → Holds D (xs ++ y ∷ ys) (pos (length xs)) r.1
        → length ys < fuel
        → Holds D fs p q
        → length fs + suc (length ys) < int_limit
        → Ends
            (xs ++ y ∷ ys)
            (fs ++ matching mae_code (y ∷ ys))
            (find_districts D memory fuel mae_code r q)
    unfolding matching
    find_districts-Ends zero r xs y ys fs p q e h l g m = absurd (omega arith)
    find_districts-Ends (suc fuel) (v, all) xs y [] fs p q e h l g m =
        let (fs', p', q', a, g', m', joined) = add_district-Holds mae_code fs [] p y q g m in
        let e' = find_districts-next fuel y all q q' a in
        (
          (all, q'),
          rw e (e' ∙ rw (past_last D xs y h) (find_districts-none fuel all q')),
          ((pos (length xs), h), (p', rw (sym (append-nil fs') ∙ joined) at g')),
        )
    find_districts-Ends (suc fuel) (v, all) xs y (z ∷ zs) fs p q e h l g m =
        let (fs', p', q', a, g', m', joined) = add_district-Holds mae_code fs (z ∷ zs) p y q g m in
        let (e', h') = next_node D xs y z zs h in
        rw (e, find_districts-next fuel y all q q' a)
          (rw (append_assoc xs (y ∷ []) (z ∷ zs), joined) at
            (find_districts-Ends fuel (queue_get_next D all) (xs ++ y ∷ []) z zs fs' p' q' e' h'
              (omega arith) g' m'))

    first-Ends :
        (fuel : ℕ) (r : Option ConsularDistrict × Option (Queue D)) (fs : List ConsularDistrict)
        (p p' : ℤ) (q : Option (Queue D))
        → r.0 ≡ none
        → Holds D [] p' r.1
        → Holds D fs p q
        → Ends [] (fs ++ []) (find_districts D memory fuel mae_code r q)
    first-Ends fuel (v, all) fs p p' q e h g =
        ((all, q), rw e (find_districts-none fuel all q), ((p', h), (p, rw append-nil g)))

    all_districts-Ends :
        (all q : Option (Queue D)) (ds fs : List ConsularDistrict) (p : ℤ)
        → Waits D ds all
        → Holds D fs p q
        → length fs + length ds < int_limit
        → Ends ds
            (fs ++ matching mae_code ds)
            (find_districts D memory (rounds D all) mae_code (queue_get_first D all) q)
    unfolding matching
    all_districts-Ends all q [] fs p h g m =
        let (e, (p', h')) = queue_get_first-none D h in
        first-Ends (rounds D all) (queue_get_first D all) fs p p' q e h' g
    all_districts-Ends all q (d ∷ ds) fs p (before n e h) g m = cc e
    all_districts-Ends all q (d ∷ ds) fs p (at_node n h) g m =
        let (e, h') = queue_get_first-Holds D h in
        find_districts-Ends (rounds D all) (queue_get_first D all) [] d ds fs p q e h'
          (rounds-lt D [] d ds h) g m

  -- The search for districts, `sce_find_consular_districts_by_mae_code`, returns 0, leaves the
  -- list of all districts as it is, and adds behind the results, in their order, exactly those
  -- with the given MAE code, with their territory and SCE code. xmalloc finds memory for these,
  -- and both lists together have fewer than 2^31 nodes; each may be empty.
  pub sce_find_consular_districts_by_mae_code-AreFound :
      (S : Sqlite) (sce : Sce S D) (memory : ℕ → Bool) (mae_code : ℤ)
      (ds fs : List ConsularDistrict) (p : ℤ) (q : Option (Queue D))
      → ((n : ℕ) → memory n ≡ true)
      → Waits D ds sce.global_consular_districts
      → Holds D fs p q
      → length fs + length ds < int_limit
      → (all' : Option (Queue D)) × (q' : Option (Queue D))
        × (sce_find_consular_districts_by_mae_code S D memory sce mae_code q
            ≡ some (pos 0, record sce { global_consular_districts = all' }, q'))
        × AreFound ds (fs ++ matching mae_code ds) (all', q')
  unfolding sce_find_consular_districts_by_mae_code
  sce_find_consular_districts_by_mae_code-AreFound S sce memory mae_code ds fs p q finds h g m =
      let ((all', q'), e, found) =
        all_districts-Ends memory finds mae_code sce.global_consular_districts q ds fs p h g m in
      (all', q', rw (e, sce_find_consular_districts_by_mae_code) refl, found)
