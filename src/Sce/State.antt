-- ===== src/Sce/State.antt =====
-- The codes of states, and the entities found by them.
use secoli_sced.Base.{
  Bytes, ℕ, zero, suc, ◌+◌, ◌/◌, ◌%◌, ◌<◌, ◌≡◌, ◌≢◌, ◌⊎◌, refl, ◌∙◌, inl, inr, true, [], ◌∷◌,
  Option, none, some, arith, length, get_elem?-lt, get_elem?-set_self, get_elem?-set_other,
  if◌then◌else◌, ◌==◌, ltb, Bool-cases, ℤ, pos, negsuc, eqb_ℤ,
}
use secoli_sced.Clib.{is_digit, decimal, decimal_from, atoi}
use secoli_sced.Clib.Decimal.{atol-decimal}
use secoli_sced.ConsularDistrict.{ConsularDistrict}
use secoli_sced.Queue.Glib.{GQueue}
use secoli_sced.Sce.{
  Sce, SceEntity, sce_entities_max, is_state, all_digits, sce_validate_cod_state,
  sce_got_italian_cod_state, get_entity_by_cod_state, set_entity_by_cod_state,
}
use secoli_sced.Xsqlite.{Sqlite}
use secoli_sced.Zipcode.{cod_state_unset}

all_digits-decimal_from :
    (fuel n : ℕ) (out : Bytes) → all_digits out ≡ true → all_digits (decimal_from fuel n out) ≡ true
unfolding decimal_from all_digits
all_digits-decimal_from zero n out h = h
all_digits-decimal_from (suc fuel) n out h = elim (Bool-cases (ltb n 10)) [
  | inl small ↦ rw (small, decimal_from) (unfold is_digit in ground arith)
  | inr large ↦
      rw (large, decimal_from)
        (all_digits-decimal_from fuel (n / 10) ((b'0' + n % 10) ∷ out)
          (unfold is_digit in ground arith))
]

-- A number from 1 to 1023, printed in decimal, is accepted as the code of that state.
pub sce_validate_cod_state-decimal :
    (n : ℕ) → 0 < n → n < sce_entities_max → sce_validate_cod_state (some (decimal n)) ≡ pos n
unfolding sce_validate_cod_state decimal is_state atoi
sce_validate_cod_state-decimal n p l =
    let digits = all_digits-decimal_from (suc n) n [] (unfold all_digits in refl) in
    let value = atol-decimal n (omega arith) in rw (digits, value) (ground arith)

-- A state from 1 to 1023 is an index of the table.
is_state-pos : (c : ℤ) → is_state c ≡ true → (n : ℕ) × (c ≡ pos n) × (n < sce_entities_max)
unfolding is_state sce_got_italian_cod_state
is_state-pos (pos n) h = (n, refl, ground arith)
is_state-pos (negsuc n) h = ground arith

-- A code that is accepted, and 0, which has a variable of its own.
abbrev pub IsCode : ℤ → Type 0
IsCode c = (c ≡ pos 0) ⊎ (is_state c ≡ true)

pub code-pos : (c : ℤ) → IsCode c → (n : ℕ) × (c ≡ pos n) × (n < sce_entities_max)
code-pos c (inl e) = (0, e, omega arith)
code-pos c (inr h) = is_state-pos c h

-- A string is either no code, or the code of a state in the table.
pub validate-IsCode :
    (string : Option Bytes)
    → (sce_validate_cod_state string ≡ cod_state_unset) ⊎ IsCode (sce_validate_cod_state string)
unfolding sce_validate_cod_state
validate-IsCode none = inl refl
validate-IsCode (some s) = ground arith

module _ (S : Sqlite) (D : GQueue ConsularDistrict) where
  abbrev pub IsTable : Sce S D → Type 0
  IsTable sce = length sce.entity_table ≡ sce_entities_max

  get_entity-pos :
      (sce : Sce S D) (n : ℕ)
      → IsTable sce
      → n < sce_entities_max
      → get_entity_by_cod_state S D sce (pos n) ≢ none
  unfolding get_entity_by_cod_state
  get_entity-pos sce n t l e =
      let there = get_elem?-lt sce.entity_table n (omega arith) in ground (arith, there)

  -- `get_entity_by_cod_state` reads inside the table for each code that
  -- `sce_validate_cod_state` accepts, and for 0.
  pub get_entity_by_cod_state-IsCode :
      (sce : Sce S D) (c : ℤ) → IsTable sce → IsCode c → get_entity_by_cod_state S D sce c ≢ none
  get_entity_by_cod_state-IsCode sce c t h =
      let (n, e, l) = code-pos c h in rw e (get_entity-pos sce n t l)

  -- The entity that is found for `d` once one has been set for another code.
  abbrev pub then_get : Option (ℤ × Sce S D) → ℤ → Option (Option (SceEntity S))
  then_get none d = none
  then_get (some (status, sce)) d = get_entity_by_cod_state S D sce d

  set-get-pos :
      (sce : Sce S D) (m n : ℕ) (e : SceEntity S)
      → IsTable sce
      → m < sce_entities_max
      → n < sce_entities_max
      → then_get (set_entity_by_cod_state S D sce (pos m) (some e)) (pos n)
        ≡ (if m == n then some (some e) else get_entity_by_cod_state S D sce (pos n))
  unfolding get_entity_by_cod_state set_entity_by_cod_state sce_got_italian_cod_state
  set-get-pos sce m n e t l k = elim (Bool-cases (m == n)) [
    | inl same ↦ ground (arith, get_elem?-set_self sce.entity_table m (some e) (omega arith))
    | inr other ↦ ground (arith, get_elem?-set_other sce.entity_table m n (some e) (ground arith))
  ]

  -- Once `set_entity_by_cod_state` has set an entity for an accepted code or 0,
  -- `get_entity_by_cod_state` finds it for that code, and what it found before for any other.
  pub set_entity_by_cod_state-get :
      (sce : Sce S D) (c d : ℤ) (e : SceEntity S)
      → IsTable sce
      → IsCode c
      → IsCode d
      → then_get (set_entity_by_cod_state S D sce c (some e)) d
        ≡ (if eqb_ℤ c d then some (some e) else get_entity_by_cod_state S D sce d)
  set_entity_by_cod_state-get sce c d e t h k =
      let (m, p, l) = code-pos c h in
      let (n, q, l') = code-pos d k in rw (p, q) (set-get-pos sce m n e t l l' ∙ ground arith)
