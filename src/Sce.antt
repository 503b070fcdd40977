-- ===== src/Sce.antt =====
-- src/sce.c: the table of the entities, one for each state, and the searches in them. An index
-- outside the table is an error of the model: `none`.
pub mod Find
pub mod Found
pub mod State
pub mod Districts
pub mod Load
pub mod Sample
mod Tests
use secoli_sced.Base.{
  Bytes, ℕ, zero, suc, Bool, true, false, not, ◌&&◌, ◌||◌, List, [], ◌∷◌, Option, none, some,
  if◌then◌else◌, length, get_elem?, set, ℤ, pos, negsuc, minus_one, eqb_ℤ, ltb_ℤ, ltb,
}
use secoli_sced.Clib.{atoi, is_digit}
use secoli_sced.ConsularDistrict.{ConsularDistrict}
use secoli_sced.Location.{Location}
use secoli_sced.Queue.Glib.{GQueue}
use secoli_sced.Queue.{Queue}
use secoli_sced.Xsqlite.Find.{cod_state_italy}
use secoli_sced.Xsqlite.{Sqlite}
use secoli_sced.Zipcode.{cod_state_unset}

abbrev pub sce_entities_max : ℕ
sce_entities_max = 1024

unfoldable pub sce_got_italian_cod_state : ℤ → Bool
sce_got_italian_cod_state cod_state = eqb_ℤ cod_state cod_state_italy

-- The loop of `sce_validate_cod_state`.
unfoldable pub all_digits : Bytes → Bool
all_digits [] = true
all_digits (c ∷ s) = is_digit c && all_digits s

unfoldable pub is_state : ℤ → Bool
unfolding sce_got_italian_cod_state
is_state cod_state =
    ltb_ℤ (pos 0) cod_state && ltb_ℤ cod_state (pos sce_entities_max)
    || sce_got_italian_cod_state cod_state

unfoldable pub sce_validate_cod_state : Option Bytes → ℤ
unfolding all_digits is_state
sce_validate_cod_state none = cod_state_unset
sce_validate_cod_state (some string) =
    if not (all_digits string)
    then cod_state_unset
    else let cod_state = atoi string in if is_state cod_state then cod_state else cod_state_unset

-- The loop of `filename2cod_state`.
unfoldable pub digits_of : Bytes → Bytes
digits_of [] = []
digits_of (c ∷ filename) = let rest = digits_of filename in if is_digit c then c ∷ rest else rest

-- The buffer has `sizeof(filename) + 1` bytes, nine of them: `none` where the digits and their NUL
-- run over its end, or xmalloc finds no memory for it, and they are written through NULL.
unfoldable pub filename2cod_state : Bool → Bytes → Option Bytes
unfolding digits_of
filename2cod_state memory filename =
    let digits = digits_of filename in if memory && ltb (length digits) 9 then some digits else none

-- `t[i]` of an array, and an assignment to it; `none` outside it.
abbrev pub array_get {ℓ} : {A : Type ℓ} → List A → ℤ → Option A
array_get t (pos n) = get_elem? t n
array_get t (negsuc n) = none

abbrev pub array_set {ℓ} : {A : Type ℓ} → List A → ℤ → A → Option (List A)
array_set t (pos n) v = if ltb n (length t) then some (set t n v) else none
array_set t (negsuc n) v = none

module _ (S : Sqlite) where
  -- The filter tree is not used. `locations` is the array that a dump lists.
  pub record SceEntity : Type 0 where
    pub db : Option S.Db
    pub locations : Option (List Location)
    pub location_count : ℤ

  -- The static variables.
  pub record Sce (D : GQueue ConsularDistrict) : Type 0 where
    pub entity_table : List (Option SceEntity)
    pub entity_000 : Option SceEntity
    pub entity_italy : Option SceEntity
    pub global_consular_districts : Option (Queue D)

  module _ (D : GQueue ConsularDistrict) where
    unfoldable pub get_entity_by_cod_state : Sce D → ℤ → Option (Option SceEntity)
    unfolding sce_got_italian_cod_state
    get_entity_by_cod_state sce cod_state =
        if eqb_ℤ cod_state (pos 0)
        then some sce.entity_000
        else if sce_got_italian_cod_state cod_state
        then some sce.entity_italy
        else array_get sce.entity_table cod_state

    unfoldable pub set_entity_by_cod_state : Sce D → ℤ → Option SceEntity → Option (ℤ × Sce D)
    unfolding sce_got_italian_cod_state
    set_entity_by_cod_state sce cod_state none = some (minus_one, sce)
    set_entity_by_cod_state sce cod_state (some entity) =
        if eqb_ℤ cod_state (pos 0)
        then some (pos 0, record sce { entity_000 = some entity })
        else if sce_got_italian_cod_state cod_state
        then some (pos 0, record sce { entity_italy = some entity })
        else elim (array_set sce.entity_table cod_state (some entity)) [
          | none ↦ none
          | some table ↦ some (pos 0, record sce { entity_table = table })
        ]

    -- `opened` is what `xsqlite_load_datafile` gives for the file, and `fresh` the entity that
    -- xmalloc finds, with whatever is in it.
    unfoldable pub load_entity_skip_validation :
        Sce D → Option Bytes → ℤ → Option S.Db → Option SceEntity → Option (ℤ × Sce D)
    load_entity_skip_validation sce none cod_state opened fresh = some (minus_one, sce)
    load_entity_skip_validation sce (some filename) cod_state opened fresh =
        if eqb_ℤ cod_state cod_state_unset then some (minus_one, sce) else elim opened [
          | none ↦ some (minus_one, sce)
          | some db ↦ (elim fresh [
            | none ↦ some (minus_one, sce)
            | some entity ↦
                set_entity_by_cod_state sce cod_state (some (record entity { db = some db }))
          ])
        ]

    unfoldable pub load_entity :
        Bool → Sce D → Option Bytes → Option S.Db → Option SceEntity → Option (ℤ × Sce D)
    unfolding sce_validate_cod_state filename2cod_state
    load_entity memory sce none opened fresh = some (minus_one, sce)
    load_entity memory sce (some filename) opened fresh =
        elim (filename2cod_state memory filename) [
          | none ↦ none
          | some digits ↦
              (let cod_state = sce_validate_cod_state (some digits) in
                if eqb_ℤ cod_state cod_state_unset
                then some (minus_one, sce)
                else load_entity_skip_validation sce (some filename) cod_state opened fresh)
        ]
