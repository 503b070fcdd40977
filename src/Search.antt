-- ===== src/Search.antt =====
-- src/search.c: a search, its predicates and its results. `none` in place of a result stands for a
-- read or write through a wrong pointer.
pub mod Execute
pub mod Kind
pub mod Branches
pub mod Safety
mod Tests
use secoli_sced.Base.{
  Bytes, ℕ, Bool, true, false, not, ◌&&◌, ◌||◌, List, [], ◌∷◌, Option, none, some, if◌then◌else◌,
  ltb, length, ℤ, pos, minus_one, eqb_ℤ, getter, update,
}
use secoli_sced.Clib.{atoi}
use secoli_sced.ConsularDistrict.{ConsularDistrict, mae_code_unset, sce_code_unset}
use secoli_sced.Consulate.{Consulate}
use secoli_sced.Location.{Location, strlen}
use secoli_sced.Queue.Glib.{GQueue}
use secoli_sced.Queue.{Queue, queue_create}
use secoli_sced.Zipcode.{Zipcode, cod_state_unset}

-- SEARCH_BY_…
abbrev pub search_by_undefined : ℤ
search_by_undefined = pos 0

abbrev pub search_by_name : ℤ
search_by_name = pos 1

abbrev pub search_by_sce_code : ℤ
search_by_sce_code = pos 2

abbrev pub search_by_zipcode : ℤ
search_by_zipcode = pos 3

abbrev pub search_by_mae_code : ℤ
search_by_mae_code = pos 4

-- SEARCH_TYPE_…
abbrev pub type_undefined : ℤ
type_undefined = pos 0

abbrev pub type_consulates : ℤ
type_consulates = pos 1

abbrev pub type_locations : ℤ
type_locations = pos 2

abbrev pub type_zc_specimina : ℤ
type_zc_specimina = pos 4

abbrev pub type_consular_districts : ℤ
type_consular_districts = pos 5

abbrev pub type_dump : ℤ
type_dump = pos 9

abbrev pub constraint_left_exact : ℤ
constraint_left_exact = pos 1

-- GLib's queue, for each type of node.
abbrev pub Glib : Type 1
Glib = (A : Type 0) → GQueue A

-- `in_italy` is not used.
pub record Search (G : Glib) : Type 0 where
  pub name : Option Bytes
  pub zipcode : Option Bytes
  pub province : Option Bytes
  pub cod_state : ℤ
  pub sce_code : ℤ
  pub mae_code : ℤ
  pub search_by : ℤ
  pub type : ℤ
  pub sce_dump : Option (List Location)
  pub sce_dump_count : ℤ
  pub constraint : ℤ
  pub territorial_competence : Bool
  pub locations : Option (Queue (G Location))
  pub consulates : Option (Queue (G Consulate))
  pub zip_code_specimina : Option (Queue (G Zipcode))
  pub consular_districts : Option (Queue (G ConsularDistrict))

-- `i && i != unset`
abbrev pub is_given : ℤ → ℤ → Bool
is_given i unset = not (eqb_ℤ i (pos 0)) && not (eqb_ℤ i unset)

-- `s && strlen(s) > 0`
abbrev pub is_nonempty : Option Bytes → Bool
is_nonempty s = ltb 0 (strlen s)

module _ (G : Glib) where
  abbrev pub Pointer : Type 0
  Pointer = Option (Search G)

  abbrev pub Changed : Type 0
  Changed = ℤ × Option (Search G)

  abbrev pub kind_of : Search G → ℤ
  kind_of s =
      if is_nonempty s.name
      then search_by_name
      else if is_nonempty s.zipcode
      then search_by_zipcode
      else if is_given s.mae_code mae_code_unset
      then search_by_mae_code
      else if is_given s.sce_code sce_code_unset
      then search_by_sce_code
      else search_by_undefined

  unfoldable pub refresh_internal_state : Pointer → Changed
  refresh_internal_state none = (minus_one, none)
  refresh_internal_state (some s) = (pos 0, some (record s { search_by = kind_of s }))

  -- `if (!search) return -1; …; return refresh_internal_state(search);`
  abbrev refreshed {ℓ} : {V : Type ℓ} → (Search G → V → Search G) → Pointer → V → Changed
  refreshed f none v = (minus_one, none)
  refreshed f (some s) v = refresh_internal_state (some (f s v))

  -- The search that xmalloc finds, whose dump is left as it is; the four flags say whether
  -- `queue_create` finds memory.
  unfoldable pub search_create :
      Option (Search G)
      → Bool × Bool × Bool × Bool
      → ℤ
      → Option Bytes
      → ℤ
      → Option Bytes
      → ℤ
      → Pointer
  unfolding refresh_internal_state
  search_create none memory cod_state name sce_code zipcode mae_code = none
  search_create (some fresh) (m1, m2, m3, m4) cod_state name sce_code zipcode mae_code =
      if not (m1 && m2 && m3 && m4)
      then none
      else defaults
          (refresh_internal_state (
            some (record fresh {
              locations = queue_create (G Location) m1;
              consulates = queue_create (G Consulate) m2;
              zip_code_specimina = queue_create (G Zipcode) m3;
              consular_districts = queue_create (G ConsularDistrict) m4;
              cod_state = cod_state;
              province = none;
              territorial_competence = false;
              name = name;
              sce_code = sce_code;
              zipcode = zipcode;
              mae_code = mae_code;
            }))).1
    where
      defaults : Pointer → Pointer
      defaults none = none
      defaults (some s) =
          some (record s { type = type_locations; constraint = constraint_left_exact })

  unfoldable pub search_get_cod_state : Pointer → ℤ
  search_get_cod_state = getter (λ s. s.cod_state) cod_state_unset

  unfoldable pub search_set_cod_state : Pointer → ℤ → Changed
  unfolding refresh_internal_state
  search_set_cod_state = refreshed λ s cod_state. record s { cod_state = cod_state }

  unfoldable pub search_get_mae_code : Pointer → ℤ
  search_get_mae_code = getter (λ s. s.mae_code) (pos 0)

  -- `atoi` of the string
  unfoldable pub search_set_mae_code : Pointer → Bytes → Changed
  unfolding refresh_internal_state
  search_set_mae_code = refreshed λ s mae_code. record s { mae_code = atoi mae_code }

  unfoldable pub search_get_name : Pointer → Option Bytes
  search_get_name = getter (λ s. s.name) none

  unfoldable pub search_set_name : Pointer → Option Bytes → Changed
  unfolding refresh_internal_state
  search_set_name = refreshed λ s name. record s { name = name }

  unfoldable pub search_get_province : Pointer → Option Bytes
  search_get_province = getter (λ s. s.province) none

  unfoldable pub search_set_province : Pointer → Bytes → Changed
  unfolding refresh_internal_state
  search_set_province = refreshed λ s province. record s { province = some province }

  unfoldable pub search_get_sce_code : Pointer → ℤ
  search_get_sce_code = getter (λ s. s.sce_code) (pos 0)

  -- `address` is the pointer that strdup gives for the string, as a number.
  unfoldable pub search_set_sce_code : Pointer → Bytes → ℤ → Changed
  unfolding refresh_internal_state
  search_set_sce_code s sce_code address = refreshed (λ t a. record t { sce_code = a }) s address

  unfoldable pub search_get_territorial_competence : Pointer → Bool
  search_get_territorial_competence = getter (λ s. s.territorial_competence) false

  unfoldable pub search_set_territorial_competence : Pointer → Bool → Changed
  unfolding refresh_internal_state
  search_set_territorial_competence =
      refreshed λ s value. record s { territorial_competence = value }

  unfoldable pub search_get_zipcode : Pointer → Option Bytes
  search_get_zipcode = getter (λ s. s.zipcode) none

  unfoldable pub search_set_zipcode : Pointer → Option Bytes → Changed
  unfolding refresh_internal_state
  search_set_zipcode = refreshed λ s zipcode. record s { zipcode = zipcode }

  unfoldable pub search_set_search_by : Pointer → ℤ → Changed
  search_set_search_by = update λ s search_by. record s { search_by = search_by }

  unfoldable pub search_get_search_by : Pointer → ℤ
  search_get_search_by = getter (λ s. s.search_by) search_by_undefined

  unfoldable pub search_set_type : Pointer → ℤ → Changed
  search_set_type = update λ s type. record s { type = type }

  unfoldable pub search_get_type : Pointer → ℤ
  search_get_type = getter (λ s. s.type) type_undefined
