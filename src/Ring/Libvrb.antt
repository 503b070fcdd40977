-- ===== src/Ring/Libvrb.antt =====
-- The calls of libvrb that ring.c makes. The library is not part of the repository: its type and
-- functions are the fields of an interface, with what it documents stated of the data that stand
-- in the buffer, to which `vrb_data_ptr` leads.
use secoli_sced.Base.{
  ap, Bytes, ℕ, zero, suc, ◌+◌, ◌-◌, ◌≤◌, ◌∷◌, length-append, Bool, ◌==◌, ◌≡◌, refl, sym, arith, [],
  ◌++◌, Option, none, some, length, take, drop,
}

pub record Vrb : Type 1 where
  pub Carrier : Type 0
  pub vrb_new : ℕ → Option Carrier
  pub vrb_data_ptr : Carrier → Bytes
  pub vrb_data_len : Carrier → ℕ
  pub vrb_space_len : Carrier → ℕ
  pub vrb_is_empty : Carrier → Bool
  -- The bytes that are put or got, and the buffer then.
  pub vrb_put : Carrier → Bytes → ℕ × Carrier
  pub vrb_get : Carrier → ℕ → Bytes × Carrier
  -- What stands at `vrb_data_ptr`, written over.
  pub write_data : Carrier → Bytes → Carrier
  pub vrb_new-data :
      (n : ℕ) (v : Carrier) → vrb_new n ≡ some v → (vrb_data_ptr v ≡ []) × (n ≤ vrb_space_len v)
  pub vrb_data_len-length : (v : Carrier) → vrb_data_len v ≡ length (vrb_data_ptr v)
  pub vrb_is_empty-length : (v : Carrier) → vrb_is_empty v ≡ (length (vrb_data_ptr v) == 0)
  pub vrb_put-count :
      (v : Carrier) (xs : Bytes) → (vrb_put v xs).0 ≡ length (take (vrb_space_len v) xs)
  pub vrb_put-data :
      (v : Carrier) (xs : Bytes)
      → vrb_data_ptr (vrb_put v xs).1 ≡ vrb_data_ptr v ++ take (vrb_space_len v) xs
  pub vrb_get-bytes : (v : Carrier) (n : ℕ) → (vrb_get v n).0 ≡ take n (vrb_data_ptr v)
  pub vrb_get-data : (v : Carrier) (n : ℕ) → vrb_data_ptr (vrb_get v n).1 ≡ drop n (vrb_data_ptr v)
  -- The size of the buffer.
  pub vrb_put-size :
      (v : Carrier) (xs : Bytes)
      → length (vrb_data_ptr (vrb_put v xs).1) + vrb_space_len (vrb_put v xs).1
        ≡ length (vrb_data_ptr v) + vrb_space_len v
  pub vrb_get-size :
      (v : Carrier) (n : ℕ)
      → length (vrb_data_ptr (vrb_get v n).1) + vrb_space_len (vrb_get v n).1
        ≡ length (vrb_data_ptr v) + vrb_space_len v

length-take : (n : ℕ) (xs : Bytes) → length (take n xs) ≤ n
length-take zero xs = omega arith
length-take (suc n) [] = omega arith
length-take (suc n) (x ∷ xs) = omega (arith, length-take n xs)

length-take-drop : (n : ℕ) (xs : Bytes) → length (drop n xs) + length (take n xs) ≡ length xs
length-take-drop zero xs = omega arith
length-take-drop (suc n) [] = refl
length-take-drop (suc n) (x ∷ xs) = omega (arith, length-take-drop n xs)

pub put-size :
    (v : Bytes × ℕ) (xs : Bytes)
    → length (v.0 ++ take v.1 xs) + (v.1 - length (take v.1 xs)) ≡ length v.0 + v.1
put-size v xs = omega (arith, length-append v.0 (take v.1 xs), length-take v.1 xs)

pub get-size :
    (v : Bytes × ℕ) (n : ℕ) → length (drop n v.0) + (v.1 + length (take n v.0)) ≡ length v.0 + v.1
get-size v n = omega (arith, length-take-drop n v.0)

pub new-data :
    (n : ℕ) (v : Bytes × ℕ)
    → ◌≡◌ {A = Option (Bytes × ℕ)} (some ([], n)) (some v)
    → (v.0 ≡ []) × (n ≤ v.1)
new-data n v e =
    let same = ap (λ o. elim o [ none ↦ v | some w ↦ w ]) e in
    (sym (ap (λ p. p.0) same), omega (arith, ap (λ p. p.1) same))

-- The interface can be met: the data and the space behind them.
abbrev pub list_vrb : Vrb
list_vrb = record {
  Carrier = Bytes × ℕ;
  vrb_new = λ n. some ([], n);
  vrb_data_ptr = λ v. v.0;
  vrb_data_len = λ v. length v.0;
  vrb_space_len = λ v. v.1;
  vrb_is_empty = λ v. length v.0 == 0;
  vrb_put = λ v xs. (length (take v.1 xs), (v.0 ++ take v.1 xs, v.1 - length (take v.1 xs)));
  vrb_get = λ v n. (take n v.0, (drop n v.0, v.1 + length (take n v.0)));
  write_data = λ v xs. (xs, v.1);
  vrb_new-data = new-data;
  vrb_data_len-length = λ v. refl;
  vrb_is_empty-length = λ v. refl;
  vrb_put-count = λ v xs. refl;
  vrb_put-data = λ v xs. refl;
  vrb_get-bytes = λ v n. refl;
  vrb_get-data = λ v n. refl;
  vrb_put-size = put-size;
  vrb_get-size = get-size;
}
