-- ===== src/Search/Kind.antt =====
-- What a search is by: the first of its predicates that is given.
use secoli_sced.Base.{
  Bytes, ℕ, zero, suc, ◌≡◌, ◌≢◌, ◌⊎◌, inl, inr, refl, Bool, true, false, List, [], ◌∷◌, Option,
  none, some, ℤ, pos, negsuc, minus_one, arith,
}
use secoli_sced.Search.{
  Search, Glib, Pointer, kind_of, search_create, search_set_cod_state, search_set_mae_code,
  search_set_name, search_set_province, search_set_sce_code, search_set_territorial_competence,
  search_set_zipcode, search_set_type, is_given, is_nonempty, search_by_name, search_by_zipcode,
  search_by_mae_code, search_by_sce_code, search_by_undefined,
}

-- The calls that the program makes to change a search.
pub data Change : Type 0 where
  set_name set_zipcode : Option Bytes → Change
  set_province set_mae_code : Bytes → Change
  set_sce_code : Bytes → ℤ → Change
  set_cod_state set_type : ℤ → Change
  set_territorial_competence : Bool → Change

-- A text that is not empty, a text that is missing or empty; a code that is set, and one that is
-- not.
pub data Given : Option Bytes → Type 0 where
  given : (c : ℕ) (cs : Bytes) → Given (some (c ∷ cs))

pub data Missing : Option Bytes → Type 0 where
  null : Missing none
  empty : Missing (some [])

abbrev pub IsSetCode : ℤ → Type 0
IsSetCode z = (z ≢ pos 0) × (z ≢ minus_one)

abbrev pub IsUnsetCode : ℤ → Type 0
IsUnsetCode z = (z ≡ pos 0) ⊎ (z ≡ minus_one)

text-cases :
    (o : Option Bytes) → ((is_nonempty o ≡ true) × Given o) ⊎ ((is_nonempty o ≡ false) × Missing o)
text-cases none = inr (refl, null)
text-cases (some []) = inr (refl, empty)
text-cases (some (c ∷ cs)) = inl (ground arith, given c cs)

code-cases :
    (z : ℤ)
    → ((is_given z minus_one ≡ true) × IsSetCode z)
      ⊎ ((is_given z minus_one ≡ false) × IsUnsetCode z)
code-cases (pos zero) = inr (refl, inl refl)
code-cases (pos (suc n)) = inl (ground arith, ((λ e. cc e), λ e. cc e))
code-cases (negsuc zero) = inr (refl, inr refl)
code-cases (negsuc (suc n)) = inl (ground arith, ((λ e. cc e), λ e. ground arith))

module _ (G : Glib) where
  unfoldable pub change : Pointer G → Change → Pointer G
  change s (set_name name) = (search_set_name G s name).1
  change s (set_zipcode zipcode) = (search_set_zipcode G s zipcode).1
  change s (set_province province) = (search_set_province G s province).1
  change s (set_mae_code mae_code) = (search_set_mae_code G s mae_code).1
  change s (set_sce_code sce_code address) = (search_set_sce_code G s sce_code address).1
  change s (set_cod_state cod_state) = (search_set_cod_state G s cod_state).1
  change s (set_type type) = (search_set_type G s type).1
  change s (set_territorial_competence value) = (search_set_territorial_competence G s value).1

  unfoldable pub change_all : Pointer G → List Change → Pointer G
  unfolding change
  change_all s [] = s
  change_all s (c ∷ cs) = change_all (change s c) cs

  -- The search is there, and searched for by what its predicates say.
  pub data IsRefreshed : Pointer G → Type 0 where
    is_refreshed : (s : Search G) → s.search_by ≡ kind_of G s → IsRefreshed (some s)

  change-IsRefreshed : (s : Pointer G) (c : Change) → IsRefreshed s → IsRefreshed (change s c)
  unfolding change search_set_name search_set_zipcode search_set_province search_set_mae_code
      search_set_sce_code search_set_cod_state search_set_type search_set_territorial_competence
  change-IsRefreshed _ (set_name name) (is_refreshed s e) = is_refreshed _ refl
  change-IsRefreshed _ (set_zipcode zipcode) (is_refreshed s e) = is_refreshed _ refl
  change-IsRefreshed _ (set_province province) (is_refreshed s e) = is_refreshed _ refl
  change-IsRefreshed _ (set_mae_code mae_code) (is_refreshed s e) = is_refreshed _ refl
  change-IsRefreshed _ (set_sce_code sce_code address) (is_refreshed s e) = is_refreshed _ refl
  change-IsRefreshed _ (set_cod_state cod_state) (is_refreshed s e) = is_refreshed _ refl
  change-IsRefreshed _ (set_type type) (is_refreshed s e) = is_refreshed _ e
  change-IsRefreshed _ (set_territorial_competence value) (is_refreshed s e) = is_refreshed _ refl

  pub change_all-IsRefreshed :
      (s : Pointer G) (cs : List Change) → IsRefreshed s → IsRefreshed (change_all s cs)
  unfolding change_all
  change_all-IsRefreshed s [] h = h
  change_all-IsRefreshed s (c ∷ cs) h =
      change_all-IsRefreshed (change s c) cs (change-IsRefreshed s c h)

  create-IsRefreshed :
      (fresh : Search G) (cod_state : ℤ) (name : Option Bytes) (sce_code : ℤ)
      (zipcode : Option Bytes) (mae_code : ℤ)
      → IsRefreshed (
          search_create G
            (some fresh)
            (true, true, true, true)
            cod_state
            name
            sce_code
            zipcode
            mae_code)
  unfolding search_create
  create-IsRefreshed fresh cod_state name sce_code zipcode mae_code = is_refreshed _ refl

  -- What the search is by.
  pub data IsBy (s : Search G) : Type 0 where
    by_name : Given s.name → s.search_by ≡ search_by_name → IsBy s
    by_zipcode : Missing s.name → Given s.zipcode → s.search_by ≡ search_by_zipcode → IsBy s
    by_mae_code :
        Missing s.name
        → Missing s.zipcode
        → IsSetCode s.mae_code
        → s.search_by ≡ search_by_mae_code
        → IsBy s
    by_sce_code :
        Missing s.name
        → Missing s.zipcode
        → IsUnsetCode s.mae_code
        → IsSetCode s.sce_code
        → s.search_by ≡ search_by_sce_code
        → IsBy s
    by_nothing :
        Missing s.name
        → Missing s.zipcode
        → IsUnsetCode s.mae_code
        → IsUnsetCode s.sce_code
        → s.search_by ≡ search_by_undefined
        → IsBy s

  kind_of-IsBy : (s : Search G) → s.search_by ≡ kind_of G s → IsBy s
  kind_of-IsBy s e = elim (text-cases s.name) [
    | inl (n, g) ↦ by_name g (rw n at e)
    | inr (n, g) ↦ elim (text-cases s.zipcode) [
      | inl (z, h) ↦ by_zipcode g h (rw (n, z) at e)
      | inr (z, h) ↦ elim (code-cases s.mae_code) [
        | inl (m, k) ↦ by_mae_code g h k (rw (n, z, m) at e)
        | inr (m, k) ↦ elim (code-cases s.sce_code) [
          | inl (c, l) ↦ by_sce_code g h k l (rw (n, z, m, c) at e)
          | inr (c, l) ↦ by_nothing g h k l (rw (n, z, m, c) at e)
        ]
      ]
    ]
  ]

  IsRefreshed-IsBy : (s : Pointer G) → IsRefreshed s → (t : Search G) × (s ≡ some t) × IsBy t
  IsRefreshed-IsBy _ (is_refreshed s e) = (s, refl, kind_of-IsBy s e)

  -- When `search_create` finds memory, the search it makes is there and is by the first of name,
  -- zip code, MAE code and SCE code that is given, or by nothing where none is, and so after any
  -- calls of the setters but search_set_search_by. A text is given when it is not empty, a code
  -- when it is neither 0 nor -1.
  pub search_create-IsBy :
      (fresh : Search G) (cod_state : ℤ) (name : Option Bytes) (sce_code : ℤ)
      (zipcode : Option Bytes) (mae_code : ℤ) (cs : List Change)
      → (s : Search G) × (change_all
            (search_create G
              (some fresh)
              (true, true, true, true)
              cod_state
              name
              sce_code
              zipcode
              mae_code)
            cs
          ≡ some s)
        × IsBy s
  search_create-IsBy fresh cod_state name sce_code zipcode mae_code cs = IsRefreshed-IsBy _ (
      change_all-IsRefreshed _ cs
        (create-IsRefreshed fresh cod_state name sce_code zipcode mae_code))
