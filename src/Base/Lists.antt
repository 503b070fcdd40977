-- ===== src/Base/Lists.antt =====
-- Lists measured and indexed by native numbers, under the library's names.
use Prim.Native.Nat.{ℕ, zero, suc, ◌+◌, ◌≤◌, ◌<◌}
use mathlib.Core.Path.{◌≡◌, refl, ap}
use mathlib.Core.Logic.{◌≢◌}
use mathlib.Core.List.{List, [], ◌∷◌, ◌++◌, map}
use mathlib.Core.Option.{Option, none, some}
use secoli_sced.Base.Tests.{join}
use native.Mathlib.Omega.{arith}

module _ {ℓ} {A : Type ℓ} where
  abbrev pub length : List A → ℕ
  length [] = 0
  length (x ∷ xs) = suc (length xs)

  abbrev pub get_elem? : List A → ℕ → Option A
  get_elem? [] i = none
  get_elem? (x ∷ xs) zero = some x
  get_elem? (x ∷ xs) (suc i) = get_elem? xs i

  -- A write out of bounds changes nothing.
  abbrev pub set : List A → ℕ → A → List A
  set [] i v = []
  set (x ∷ xs) zero v = v ∷ xs
  set (x ∷ xs) (suc i) v = x ∷ set xs i v

  -- Past the end there is nothing to erase, and an insertion goes to the end.
  abbrev pub erase_idx : List A → ℕ → List A
  erase_idx [] i = []
  erase_idx (x ∷ xs) zero = xs
  erase_idx (x ∷ xs) (suc i) = x ∷ erase_idx xs i

  abbrev pub insert_idx : List A → ℕ → A → List A
  insert_idx xs zero a = a ∷ xs
  insert_idx [] (suc i) a = a ∷ []
  insert_idx (x ∷ xs) (suc i) a = x ∷ insert_idx xs i a

  abbrev pub take : ℕ → List A → List A
  take zero xs = []
  take (suc n) [] = []
  take (suc n) (x ∷ xs) = x ∷ take n xs

  abbrev pub drop : ℕ → List A → List A
  drop zero xs = xs
  drop (suc n) [] = []
  drop (suc n) (x ∷ xs) = drop n xs

module _ {ℓ} {A : Type ℓ} where
  pub length-append : (xs ys : List A) → length (xs ++ ys) ≡ length xs + length ys
  length-append [] ys = omega arith
  length-append (x ∷ xs) ys = omega (arith, length-append xs ys)

  pub length-map {κ} : {B : Type κ} (f : A → B) (xs : List A) → length (map f xs) ≡ length xs
  length-map f [] = refl
  length-map f (x ∷ xs) = ap suc (length-map f xs)

  pub insert_idx_end : (xs : List A) (a : A) → insert_idx xs (length xs) a ≡ xs ++ a ∷ []
  insert_idx_end [] a = refl
  insert_idx_end (x ∷ xs) a = ap (◌∷◌ x) (insert_idx_end xs a)

  pub get_elem?-append_self :
      (xs : List A) (a : A) (ys : List A) → get_elem? (xs ++ a ∷ ys) (length xs) ≡ some a
  get_elem?-append_self [] a ys = refl
  get_elem?-append_self (x ∷ xs) a ys = get_elem?-append_self xs a ys

  pub get_elem?_past : (xs : List A) (i : ℕ) → length xs ≤ i → get_elem? xs i ≡ none
  get_elem?_past [] i h = refl
  get_elem?_past (x ∷ xs) zero h = absurd (omega arith)
  get_elem?_past (x ∷ xs) (suc i) h = get_elem?_past xs i (omega arith)

  pub erase_idx-append_self :
      (xs : List A) (a : A) (ys : List A) → erase_idx (xs ++ a ∷ ys) (length xs) ≡ xs ++ ys
  erase_idx-append_self [] a ys = refl
  erase_idx-append_self (x ∷ xs) a ys = ap (◌∷◌ x) (erase_idx-append_self xs a ys)

  pub erase_idx_past : (xs : List A) (i : ℕ) → length xs ≤ i → erase_idx xs i ≡ xs
  erase_idx_past [] i h = refl
  erase_idx_past (x ∷ xs) zero h = absurd (omega arith)
  erase_idx_past (x ∷ xs) (suc i) h = ap (◌∷◌ x) (erase_idx_past xs i (omega arith))

  pub length-insert_idx :
      (xs : List A) (i : ℕ) (a : A) → length (insert_idx xs i a) ≡ suc (length xs)
  length-insert_idx xs zero a = refl
  length-insert_idx [] (suc i) a = refl
  length-insert_idx (x ∷ xs) (suc i) a = ap suc (length-insert_idx xs i a)

  pub get_elem?-append_left :
      (xs ys : List A) (i : ℕ) → i < length xs → get_elem? (xs ++ ys) i ≡ get_elem? xs i
  get_elem?-append_left [] ys i h = elim h [ ]
  get_elem?-append_left (x ∷ xs) ys zero h = refl
  get_elem?-append_left (x ∷ xs) ys (suc i) h = get_elem?-append_left xs ys i (omega arith)

  -- A list of pointers none of which is NULL.
  pub join-get_elem?-some :
      (xs : List A) (i : ℕ) → join (get_elem? (map some xs) i) ≡ get_elem? xs i
  join-get_elem?-some [] i = refl
  join-get_elem?-some (x ∷ xs) zero = refl
  join-get_elem?-some (x ∷ xs) (suc i) = join-get_elem?-some xs i

  pub erase_idx-map {κ} :
      {B : Type κ} (f : A → B) (xs : List A) (i : ℕ)
      → erase_idx (map f xs) i ≡ map f (erase_idx xs i)
  erase_idx-map f [] i = refl
  erase_idx-map f (x ∷ xs) zero = refl
  erase_idx-map f (x ∷ xs) (suc i) = ap (◌∷◌ (f x)) (erase_idx-map f xs i)

  pub insert_idx-map {κ} :
      {B : Type κ} (f : A → B) (xs : List A) (i : ℕ) (a : A)
      → insert_idx (map f xs) i (f a) ≡ map f (insert_idx xs i a)
  insert_idx-map f xs zero a = refl
  insert_idx-map f [] (suc i) a = refl
  insert_idx-map f (x ∷ xs) (suc i) a = ap (◌∷◌ (f x)) (insert_idx-map f xs i a)

  pub length-erase_idx-le : (xs : List A) (i : ℕ) → length (erase_idx xs i) ≤ length xs
  length-erase_idx-le [] i = omega arith
  length-erase_idx-le (x ∷ xs) zero = omega arith
  length-erase_idx-le (x ∷ xs) (suc i) = omega (arith, length-erase_idx-le xs i)

  pub take_all : (n : ℕ) (xs : List A) → length xs ≤ n → take n xs ≡ xs
  take_all zero [] h = refl
  take_all zero (x ∷ xs) h = absurd (omega arith)
  take_all (suc n) [] h = refl
  take_all (suc n) (x ∷ xs) h = ap (◌∷◌ x) (take_all n xs (omega arith))

  pub get_elem?-lt : (xs : List A) (i : ℕ) → i < length xs → get_elem? xs i ≢ none
  get_elem?-lt [] i h e = elim h [ ]
  get_elem?-lt (x ∷ xs) zero h e = cc e
  get_elem?-lt (x ∷ xs) (suc i) h e = get_elem?-lt xs i (omega arith) e

  pub get_elem?-set_self :
      (xs : List A) (i : ℕ) (v : A) → i < length xs → get_elem? (set xs i v) i ≡ some v
  get_elem?-set_self [] i v h = elim h [ ]
  get_elem?-set_self (x ∷ xs) zero v h = refl
  get_elem?-set_self (x ∷ xs) (suc i) v h = get_elem?-set_self xs i v (omega arith)

  pub get_elem?-set_other :
      (xs : List A) (i j : ℕ) (v : A) → i ≢ j → get_elem? (set xs i v) j ≡ get_elem? xs j
  get_elem?-set_other [] i j v h = refl
  get_elem?-set_other (x ∷ xs) zero zero v h = absurd (h refl)
  get_elem?-set_other (x ∷ xs) zero (suc j) v h = refl
  get_elem?-set_other (x ∷ xs) (suc i) zero v h = refl
  get_elem?-set_other (x ∷ xs) (suc i) (suc j) v h =
      get_elem?-set_other xs i j v (λ e. h (ap suc e))

  pub length-set : (xs : List A) (i : ℕ) (v : A) → length (set xs i v) ≡ length xs
  length-set [] i v = refl
  length-set (x ∷ xs) zero v = refl
  length-set (x ∷ xs) (suc i) v = ap suc (length-set xs i v)
