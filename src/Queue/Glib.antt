-- ===== src/Queue/Glib.antt =====
-- The calls of GLib's GQueue that queue.c makes. GLib is not part of the repository: its type and
-- functions are the fields of an interface, and its documented behaviour is stated of the list of
-- pointers that a queue holds. A `gpointer` is an `Option A`, with `none` for NULL.
use secoli_sced.Base.{
  ℕ, ◌≡◌, refl, List, [], ◌∷◌, ◌++◌, Option, none, some, join, ℤ, pos, negsuc, length, get_elem?,
  set, erase_idx, insert_idx,
}

pub record GQueue (A : Type 0) : Type 1 where
  pub Carrier : Type 0
  pub new : Carrier
  pub get_length : Carrier → ℕ
  pub peek_nth : Carrier → ℕ → Option A
  pub pop_nth : Carrier → ℕ → Option A × Carrier
  pub push_nth : Carrier → Option A → ℤ → Carrier
  -- `g_queue_peek_nth_link` followed by an assignment to the link's `data`: `none` where the
  -- link is NULL.
  pub put_nth : Carrier → ℕ → Option A → Option Carrier
  -- What GLib documents.
  pub contents : Carrier → List (Option A)
  pub contents-new : contents new ≡ []
  pub get_length-length : (q : Carrier) → get_length q ≡ length (contents q)
  pub peek_nth-get_elem? : (q : Carrier) (n : ℕ) → peek_nth q n ≡ join (get_elem? (contents q) n)
  pub pop_nth-value : (q : Carrier) (n : ℕ) → (pop_nth q n).0 ≡ join (get_elem? (contents q) n)
  pub pop_nth-rest : (q : Carrier) (n : ℕ) → contents (pop_nth q n).1 ≡ erase_idx (contents q) n
  pub push_nth-insert_idx :
      (q : Carrier) (d : Option A) (n : ℕ)
      → contents (push_nth q d (pos n)) ≡ insert_idx (contents q) n d
  pub push_nth-tail :
      (q : Carrier) (d : Option A) (n : ℕ)
      → contents (push_nth q d (negsuc n)) ≡ contents q ++ d ∷ []

-- The interface can be met: a queue as the list of its pointers.
abbrev list_put : {A : Type 0} → List (Option A) → ℕ → Option A → Option (List (Option A))
list_put xs n d = elim (get_elem? xs n) [ none ↦ none | some _ ↦ some (set xs n d) ]

abbrev list_push : {A : Type 0} → List (Option A) → Option A → ℤ → List (Option A)
list_push xs d (pos n) = insert_idx xs n d
list_push xs d (negsuc n) = xs ++ d ∷ []

abbrev pub list_queue : (A : Type 0) → GQueue A
list_queue A = record {
  Carrier = List (Option A);
  new = [];
  get_length = length;
  peek_nth = λ xs n. join (get_elem? xs n);
  pop_nth = λ xs n. (join (get_elem? xs n), erase_idx xs n);
  push_nth = list_push;
  put_nth = list_put;
  contents = λ xs. xs;
  contents-new = refl;
  get_length-length = λ q. refl;
  peek_nth-get_elem? = λ q n. refl;
  pop_nth-value = λ q n. refl;
  pop_nth-rest = λ q n. refl;
  push_nth-insert_idx = λ q d n. refl;
  push_nth-tail = λ q d n. refl;
}
