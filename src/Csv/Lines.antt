-- ===== src/Csv/Lines.antt =====
-- What is printed of the results in a queue.
use secoli_sced.Base.{
  Bytes, codes, ℕ, suc, ◌+◌, ◌≡◌, refl, ◌∙◌, ap, true, List, [], ◌∷◌, ◌++◌, reverse, Option, none,
  some, Option-cases, inl, inr, length, arith, ℤ, pos,
}
use mathlib.Core.List.{reverse_aux, reverse-cons}
use secoli_sced.Clib.{decimal_int}
use secoli_sced.Csv.{print_from, print_results}
use secoli_sced.Queue.Ends.{queue_pop-Holds, queue_pop_empty}
use secoli_sced.Queue.Glib.{GQueue}
use secoli_sced.Queue.Holds.{Holds, holds, queue_get_length-Holds, get_length-eq}
use secoli_sced.Queue.{Queue, queue_pop, queue_get_length}

-- The texts of the results that have one.
abbrev pub texts : {T : Type 0} → (T → Option Bytes) → List T → List Bytes
texts line [] = []
texts line (x ∷ xs) = elim (line x) [ none ↦ texts line xs | some t ↦ t ∷ texts line xs ]

abbrev pub found_any : ℤ → List Bytes → ℤ
found_any found [] = found
found_any found (l ∷ ls) = pos 1

module _ {T : Type 0} (G : GQueue T) (line : T → Option Bytes) where
  found_any_one : (ls : List Bytes) → found_any (pos 1) ls ≡ pos 1
  found_any_one [] = refl
  found_any_one (l ∷ ls) = refl

  contents_length :
      {xs : List T} {q : Queue G} {p : ℤ} → Holds G xs p (some q) → G.get_length q.queue ≡ length xs
  contents_length {xs = xs} (holds {q} e at i f) = get_length-eq G q xs e

  length-reverse_aux : (xs ys : List T) → length (reverse_aux xs ys) ≡ length xs + length ys
  length-reverse_aux [] ys = omega arith
  length-reverse_aux (x ∷ xs) ys = omega (arith, length-reverse_aux xs (x ∷ ys))

  length-reverse : (xs : List T) → length (reverse xs) ≡ length xs
  length-reverse xs = omega (arith, length-reverse_aux xs [])

  pub print_dropped :
      (fuel : ℕ) (found : ℤ) (q : Option (Queue G)) (y : T)
      → (queue_pop G q).0 ≡ some y
      → line y ≡ none
      → print_from G line (suc fuel) found q ≡ print_from G line fuel found (queue_pop G q).1
  unfolding print_from
  print_dropped fuel found q y v n = rw (print_from, v, n)

  pub print_line :
      (fuel : ℕ) (found : ℤ) (q : Option (Queue G)) (y : T) (t : Bytes)
      → (queue_pop G q).0 ≡ some y
      → line y ≡ some t
      → print_from G line (suc fuel) found q ≡ (
        (print_from G line fuel (pos 1) (queue_pop G q).1).0,
        t ∷ (print_from G line fuel (pos 1) (queue_pop G q).1).1,
        (print_from G line fuel (pos 1) (queue_pop G q).1).2,
      )
  unfolding print_from
  print_line fuel found q y t v n = rw (print_from, v, n)

  print_from-texts :
      (ys xs : List T) (found : ℤ) (q : Option (Queue G)) (p : ℤ)
      → xs ≡ reverse ys
      → Holds G xs p q
      → ((print_from G line (suc (length ys)) found q).0 ≡ found_any found (texts line ys))
        × ((print_from G line (suc (length ys)) found q).1 ≡ texts line ys)
  unfolding print_from
  print_from-texts [] xs found q p e h =
      let (v, h') = queue_pop_empty G (rw e at h) in rw (v, print_from) (refl, refl)
  print_from-texts (y ∷ ys) xs found q p e h =
      let (v, h') = queue_pop-Holds G (rw (e ∙ reverse-cons y ys) at h) in
      elim (Option-cases (line y)) [
        | inl n ↦
            rw (print_dropped (suc (length ys)) found q y v n, texts, n)
              (print_from-texts ys (reverse ys) found (queue_pop G q).1 _ refl h')
        | inr (t, n) ↦
            let (f, l) = print_from-texts ys (reverse ys) (pos 1) (queue_pop G q).1 _ refl h' in
            rw (print_line (suc (length ys)) found q y t v n, texts, n)
              (f ∙ found_any_one (texts line ys), ap (λ ls. t ∷ ls) l)
      ]

  -- A queue that holds the results in the reverse order of `xs` is printed as their number and a
  -- line for each of `xs` that has a text, in the order of `xs`; it says that it has found
  -- something when there is such a line.
  pub print_results-texts :
      (xs : List T) (q : Option (Queue G)) (p : ℤ)
      → Holds G (reverse xs) p q
      → ((print_results G line true q).0 ≡ found_any (pos 0) (texts line xs))
        × ((print_results G line true q).1
            ≡ (decimal_int (pos (length xs)) ++ codes "\n") ∷ texts line xs)
  unfolding print_results
  print_results-texts xs (some q) p h =
      let n : queue_get_length G (some q) ≡ pos (length xs) =
        queue_get_length-Holds G h ∙ ap pos (length-reverse xs) in
      let l : G.get_length q.queue ≡ length xs = contents_length h ∙ length-reverse xs in
      let (f, ls) = print_from-texts xs (reverse xs) (pos 0) (some q) p refl h in
      rw (n, l) (f, ap (λ ts. (decimal_int (pos (length xs)) ++ codes "\n") ∷ ts) ls)
  print_results-texts xs none p h = elim h [ ]
