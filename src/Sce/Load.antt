-- ===== src/Sce/Load.antt =====
-- src/sce.c: the table at the start, and the loading of a directory of data files.
use secoli_sced.Base.{
  Bytes, ℕ, zero, suc, ◌<◌, ◌≡◌, ◌≢◌, refl, ap, ◌∙◌, sym, inl, inr, Bool, true, false, Bool-cases,
  List, [], ◌∷◌, Option, none, some, arith, length, length-set, ltb, lt→ltb, if◌then◌else◌, ℤ, pos,
  minus_one, eqb_ℤ,
}
use secoli_sced.ConsularDistrict.{ConsularDistrict}
use secoli_sced.Queue.Glib.{GQueue}
use secoli_sced.Sce.State.{IsTable, IsCode, code-pos, validate-IsCode}
use secoli_sced.Sce.{
  Sce, SceEntity, sce_entities_max, digits_of, filename2cod_state, sce_validate_cod_state,
  sce_got_italian_cod_state, set_entity_by_cod_state, load_entity, load_entity_skip_validation,
}
use secoli_sced.Xsqlite.{Sqlite}
use secoli_sced.Zipcode.{cod_state_unset}

abbrev fill {ℓ} : {A : Type ℓ} → ℕ → A → List A
fill zero a = []
fill (suc n) a = a ∷ fill n a

length-fill {ℓ} : {A : Type ℓ} (n : ℕ) (a : A) → length (fill n a) ≡ n
length-fill zero a = refl
length-fill (suc n) a = ap suc (length-fill n a)

module _ (S : Sqlite) (D : GQueue ConsularDistrict) where
  unfoldable pub sce_init : Sce S D → Sce S D
  sce_init sce = record sce {
    entity_000 = none;
    entity_italy = none;
    entity_table = fill sce_entities_max none;
  }

  -- A file of the directory, whether xmalloc finds memory for its digits, what
  -- `xsqlite_load_datafile` gives for it, and what xmalloc finds for the entity.
  abbrev pub DataFile : Type 0
  DataFile = Bytes × Bool × Option S.Db × Option (SceEntity S)

  -- The calls of `load_entity` that `call_over_direntries` makes; their statuses are passed over.
  unfoldable pub load_all : List DataFile → Sce S D → Option (Sce S D)
  load_all [] sce = some sce
  load_all ((filename, memory, opened, fresh) ∷ files) sce =
      elim (load_entity S D memory sce (some filename) opened fresh) [
        | none ↦ none
        | some (status, sce') ↦ load_all files sce'
      ]

  -- The call does not fault, and leaves a table.
  abbrev Keeps : Option (ℤ × Sce S D) → Type 0
  Keeps r = (status : ℤ) × (sce : Sce S D) × (r ≡ some (status, sce)) × IsTable S D sce

  set_entity-Keeps :
      (sce : Sce S D) (c : ℤ) (e : SceEntity S)
      → IsTable S D sce
      → IsCode c
      → Keeps (set_entity_by_cod_state S D sce c (some e))
  unfolding set_entity_by_cod_state
  set_entity-Keeps sce c e t h = let (n, p, l) = code-pos c h in rw p (go n l)
    where
      go : (n : ℕ) → n < sce_entities_max → Keeps (set_entity_by_cod_state S D sce (pos n) (some e))
      go n l = elim (Bool-cases (eqb_ℤ (pos n) (pos 0))) [
        | inl is_zero ↦ (pos 0, record sce { entity_000 = some e }, ground arith, t)
        | inr other ↦ elim (Bool-cases (sce_got_italian_cod_state (pos n))) [
          | inl italian ↦ (pos 0, record sce { entity_italy = some e }, ground arith, t)
          | inr abroad ↦ (
            pos 0,
            record sce { entity_table = secoli_sced.Base.set sce.entity_table n (some e) },
            ground arith,
            length-set sce.entity_table n (some e) ∙ t,
          )
        ]
      ]

  load_skip-Keeps :
      (sce : Sce S D) (filename : Bytes) (c : ℤ) (opened : Option S.Db)
      (fresh : Option (SceEntity S))
      → IsTable S D sce
      → IsCode c
      → Keeps (load_entity_skip_validation S D sce (some filename) c opened fresh)
  unfolding load_entity_skip_validation
  load_skip-Keeps sce filename c opened fresh t h = elim (Bool-cases (eqb_ℤ c cod_state_unset)) [
    | inl unset ↦ (minus_one, sce, ground arith, t)
    | inr given ↦ rw (given, load_entity_skip_validation) (go opened fresh)
  ]
    where
      go :
          (opened : Option S.Db) (fresh : Option (SceEntity S))
          → Keeps (elim opened [
            | none ↦ some (minus_one, sce)
            | some db ↦ (elim fresh [
              | none ↦ some (minus_one, sce)
              | some entity ↦
                  set_entity_by_cod_state S D sce c (some (record entity { db = some db }))
            ])
          ])
      go none fresh = (minus_one, sce, refl, t)
      go (some db) none = (minus_one, sce, refl, t)
      go (some db) (some e) = set_entity-Keeps sce c _ t h

  -- There is memory for the digits of the name, and they and their NUL fit into the nine bytes.
  abbrev pub HasBuffer : DataFile → Type 0
  HasBuffer (filename, memory, opened, fresh) = (memory ≡ true) × (length (digits_of filename) < 9)

  abbrev pub HaveBuffers : List DataFile → Type 0
  HaveBuffers [] = Unit {0}
  HaveBuffers (f ∷ files) = HasBuffer f × HaveBuffers files

  name-digits :
      (filename : Bytes)
      → length (digits_of filename) < 9
      → filename2cod_state true filename ≡ some (digits_of filename)
  unfolding filename2cod_state
  name-digits filename l = rw (lt→ltb (length (digits_of filename)) 9 l) refl

  load-Keeps :
      (sce : Sce S D) (filename : Bytes) (opened : Option S.Db) (fresh : Option (SceEntity S))
      → IsTable S D sce
      → length (digits_of filename) < 9
      → Keeps (load_entity S D true sce (some filename) opened fresh)
  unfolding load_entity
  load-Keeps sce filename opened fresh t l =
      let digits = digits_of filename in
      rw (name-digits filename l, load_entity)
        (elim (Bool-cases (eqb_ℤ (sce_validate_cod_state (some digits)) cod_state_unset)) [
          | inl unset ↦ rw unset (minus_one, sce, refl, t)
          | inr given ↦ rw given (elim (validate-IsCode (some digits)) [
            | inl unset ↦ absurd (ground arith)
            | inr code ↦ load_skip-Keeps sce filename _ opened fresh t code
          ])
        ])

  load_all-IsTable :
      (files : List DataFile) (sce : Sce S D)
      → HaveBuffers files
      → IsTable S D sce
      → (sce' : Sce S D) × (load_all files sce ≡ some sce') × IsTable S D sce'
  unfolding load_all
  load_all-IsTable [] sce h t = (sce, refl, t)
  load_all-IsTable ((filename, memory, opened, fresh) ∷ files) sce ((there, short), h) t =
      let (status, sce1, e, t1) = load-Keeps sce filename opened fresh t short in
      rw (there, e, load_all) (load_all-IsTable files sce1 h t1)

  -- From the table that `sce_init` makes, loading a directory of files whose names have at most
  -- eight digits, for which xmalloc finds memory, neither writes outside the table nor changes its
  -- size, whatever the files are and whatever memory is found for the entities.
  pub sce_init-load_all :
      (files : List DataFile) (sce : Sce S D)
      → HaveBuffers files
      → (sce' : Sce S D) × (load_all files (sce_init sce) ≡ some sce') × IsTable S D sce'
  unfolding sce_init
  sce_init-load_all files sce h =
      load_all-IsTable files (sce_init sce) h
        (length-fill {A = Option (SceEntity S)} sce_entities_max none)
