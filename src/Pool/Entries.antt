-- ===== src/Pool/Entries.antt =====
-- Lists of entries in another order, behind the queues of sockets of src/sock2.c.
use mathlib.Core.List.{Perm, perm_append_singleton, append_assoc}
use mathlib.Core.List.Perm
use secoli_sced.Base.{
  ℕ, zero, suc, ◌≡◌, refl, ap, ◌⊎◌, inl, inr, List, [], ◌∷◌, ◌++◌, some, length, get_elem?,
  erase_idx, insert_idx,
}

pub perm_erase :
    (xs : List ℕ) (n : ℕ) (x : ℕ) → get_elem? xs n ≡ some x → Perm xs (x ∷ erase_idx xs n)
perm_erase [] n x e = cc e
perm_erase (y ∷ xs) zero x e = let same : y ≡ x = cc e in rw same (Perm.refl (x ∷ xs))
perm_erase (y ∷ xs) (suc n) x e =
    Perm.trans (Perm.cons y (perm_erase xs n x e)) (Perm.swap x y (erase_idx xs n))

pub perm_insert : (xs : List ℕ) (n d : ℕ) → Perm (insert_idx xs n d) (d ∷ xs)
perm_insert xs zero d = Perm.refl (d ∷ xs)
perm_insert [] (suc n) d = Perm.refl (d ∷ [])
perm_insert (x ∷ xs) (suc n) d = Perm.trans (Perm.cons x (perm_insert xs n d)) (Perm.swap d x xs)

pub perm_freed :
    (xs ys xs' all : List ℕ) (i : ℕ)
    → Perm xs (i ∷ xs')
    → Perm (xs ++ ys) all
    → Perm (xs' ++ (ys ++ i ∷ [])) all
perm_freed xs ys xs' all i e p = rw (← append_assoc xs' ys (i ∷ [])) (
    Perm.trans (perm_append_singleton i (xs' ++ ys))
      (Perm.trans (Perm.append_right ys (Perm.symm e)) p))

pub perm_opened :
    (xs ys xs' all : List ℕ) (i : ℕ)
    → Perm xs' (i ∷ xs)
    → Perm (xs ++ (ys ++ i ∷ [])) all
    → Perm (xs' ++ ys) all
perm_opened xs ys xs' all i e p = Perm.trans (Perm.append_right ys e) (
    Perm.trans (Perm.symm (perm_append_singleton i (xs ++ ys)))
      (rw (append_assoc xs ys (i ∷ [])) p))

pub length-erase :
    (xs : List ℕ) (n : ℕ) (x : ℕ)
    → get_elem? xs n ≡ some x
    → suc (length (erase_idx xs n)) ≡ length xs
length-erase [] n x e = cc e
length-erase (y ∷ xs) zero x e = refl
length-erase (y ∷ xs) (suc n) x e = ap suc (length-erase xs n x e)

pub snoc_cases : (xs : List ℕ) → (xs ≡ []) ⊎ ((ys : List ℕ) × (y : ℕ) × (xs ≡ ys ++ y ∷ []))
snoc_cases [] = inl refl
snoc_cases (x ∷ xs) = elim (snoc_cases xs) [
  | inl e ↦ inr ([], x, ap (◌∷◌ x) e)
  | inr (ys, y, e) ↦ inr (x ∷ ys, y, ap (◌∷◌ x) e)
]
