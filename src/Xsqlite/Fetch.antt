-- ===== src/Xsqlite/Fetch.antt =====
-- What a query leaves in the queue that it fills.
use secoli_sced.Base.{
  Bytes, ℕ, ◌+◌, ◌<◌, ◌≡◌, ◌∙◌, refl, Bool, true, inl, inr, List, [], ◌∷◌, ◌++◌, Option, some,
  arith, length, length-append, if◌then◌else◌, ◌==◌, Bool-cases, int_limit, ℤ, pos, minus_one,
}
use mathlib.Core.List.{append-nil, append_assoc}
use secoli_sced.Queue.Ends.{queue_push-Holds}
use secoli_sced.Queue.Glib.{GQueue}
use secoli_sced.Queue.Holds.{Holds}
use secoli_sced.Queue.{Queue, queue_push, xmalloc}
use secoli_sced.Xsqlite.{Row, Sqlite, Binding, add_row, fetch, query, bind_all}

-- The records of the rows of the right width, in their order.
unfoldable pub records {ℓ} : {T : Type ℓ} → ℕ → (Row → T) → List Row → List T
records width make [] = []
records width make (row ∷ rows) =
    let rest = records width make rows in if length row == width then make row ∷ rest else rest

module _ {T : Type 0} (G : GQueue T) (width : ℕ) (make : Row → T) where
  -- The call returns 0 where the rows end by SQLITE_DONE, and the queue has got their records.
  abbrev pub Fetched : List T → List Row → Bool → Option (ℤ × Option (Queue G)) → Type 0
  Fetched xs rows is_complete r =
      (p : ℤ) × (q' : Option (Queue G)) × (r
        ≡ some ((if is_complete then pos 0 else minus_one), q'))
      × Holds G (xs ++ records width make rows) p q'

  made_by : Bool → Row → Option T
  made_by memory row = xmalloc memory (make row)

  fetch-next :
      (memory : ℕ → Bool) (row : Row) (rows : List Row) (is_complete : Bool)
      (q q' : Option (Queue G))
      → add_row G width made_by (memory (length rows)) row q ≡ some q'
      → fetch G width made_by memory (row ∷ rows) is_complete q
        ≡ fetch G width made_by memory rows is_complete q'
  unfolding fetch
  fetch-next memory row rows is_complete q q' e = rw (e, fetch) refl

  fetch-Fetched :
      (memory : ℕ → Bool) (rows : List Row) (is_complete : Bool) (xs : List T) (p : ℤ)
      (q : Option (Queue G))
      → ((n : ℕ) → memory n ≡ true)
      → Holds G xs p q
      → length xs + length rows < int_limit
      → Fetched xs rows is_complete (fetch G width made_by memory rows is_complete q)
  unfolding fetch records made_by
  fetch-Fetched memory [] is_complete xs p q finds h l = (p, q, refl, rw append-nil h)
  fetch-Fetched memory (row ∷ rows) is_complete xs p q finds h l =
      elim (Bool-cases (length row == width)) [
        | inl fits ↦
            let (s, h') = queue_push-Holds G (make row) h (omega arith) in
            let room : length (xs ++ make row ∷ []) + length rows < int_limit =
              omega (arith, length-append xs (make row ∷ [])) in
            let q1 = (queue_push G q (some (make row))).1 in
            let (p', q', e, g) =
              fetch-Fetched memory rows is_complete (xs ++ make row ∷ []) _ q1 finds h' room in
            (
              p',
              q',
              fetch-next memory row rows is_complete q q1 (rw (finds (length rows), fits) refl) ∙ e,
              rw (fits, records)
                  (rw (append_assoc xs (make row ∷ []) (records width make rows)) at g),
            )
        | inr other ↦
            let (p', q', e, g) =
              fetch-Fetched memory rows is_complete xs p q finds h (omega arith) in
            (
              p',
              q',
              fetch-next memory row rows is_complete q q (rw other refl) ∙ e,
              rw (other, records) g,
            )
      ]

  pub query-Fetched :
      (S : Sqlite) (memory : ℕ → Bool) (db : S.Db) (sql : Bytes) (bindings : List Binding)
      (xs : List T) (p : ℤ) (q : Option (Queue G))
      → ((n : ℕ) → memory n ≡ true)
      → S.prepares db sql ≡ true
      → bind_all S db sql [] bindings ≡ true
      → Holds G xs p q
      → length xs + length (S.answer db sql bindings).rows < int_limit
      → Fetched xs (S.answer db sql bindings).rows (S.answer db sql bindings).is_complete (
          query S G width
            (λ found row. xmalloc found (make row))
            memory
            (some db)
            (some sql)
            bindings
            q)
  unfolding query made_by
  query-Fetched S memory db sql bindings xs p q finds prepared bound h l =
      rw (prepared, bound, query)
        (fetch-Fetched memory (S.answer db sql bindings).rows (S.answer db sql bindings).is_complete
          xs p q finds h l)
