-- ===== src/Sock2/Sending.antt =====
-- What `sock2_send` writes.
use secoli_sced.Base.{
  ◌<◌, true, ltb, lt→ltb, int_limit, Bytes, ℕ, zero, suc, ◌+◌, ◌-◌, ◌≤◌, ◌≡◌, refl, sym, ap, ◌∙◌,
  false, Bool-cases, inl, inr, List, [], ◌∷◌, ◌++◌, some, if◌then◌else◌, ◌==◌, length, take, drop,
  pos, minus_one, arith,
}
use secoli_sced.Sock2.{
  Written, wrote, write_again, write_failed, Sent, returned, waiting, send_from, sock2_send,
}

-- `write` writes at most what it is given; `left` bytes are left.
abbrev pub Fits : ℕ → List Written → Type 0
Fits left [] = Unit
Fits left (wrote n ∷ ws) = (n ≤ left) × Fits (left - n) ws
Fits left (write_again ∷ ws) = Fits left ws
Fits left (write_failed ∷ ws) = Fits left ws

-- Bytes that are written before a write that fails or writes nothing.
unfoldable pub total : List Written → ℕ
total [] = 0
total (wrote n ∷ ws) = let rest = total ws in if n == 0 then 0 else n + rest
total (write_again ∷ ws) = total ws
total (write_failed ∷ ws) = 0

-- How the first writes end, of which each but the last writes something or is to be repeated.
pub data Fate : Type 0 where
  more nothing error : Fate

unfoldable pub fate : List Written → Fate
fate [] = more
fate (wrote n ∷ ws) = let rest = fate ws in if n == 0 then nothing else rest
fate (write_again ∷ ws) = fate ws
fate (write_failed ∷ ws) = error

-- What is written of `src` when writes with these fates write `n` bytes.
unfoldable pub outcome : Bytes → ℕ → Fate → Sent
outcome src n f = if n == length src then returned (pos n) (take n src) else elim f [
  | more ↦ waiting (take n src)
  | nothing ↦ returned (pos n) (take n src)
  | error ↦ returned minus_one (take n src)
]

take-suc : (m n : ℕ) (c : ℕ) (src : Bytes) → m ≡ suc n → take m (c ∷ src) ≡ c ∷ take n src
take-suc m n c src e = rw e refl

take_nil : (n : ℕ) → take {A = ℕ} n [] ≡ []
take_nil zero = refl
take_nil (suc n) = refl

take-drop : (k n : ℕ) (src : Bytes) → take k src ++ take n (drop k src) ≡ take (k + n) src
take-drop zero n src = ap (λ m. take m src) (omega arith)
take-drop (suc k) zero [] = sym (take_nil (suc k + zero))
take-drop (suc k) (suc n) [] = sym (take_nil (suc k + suc n))
take-drop (suc k) n (c ∷ src) =
    ap (◌∷◌ c) (take-drop k n src) ∙ sym (take-suc (suc k + n) (k + n) c src (omega arith))

total-none : (ws : List Written) → Fits 0 ws → total ws ≡ 0
unfolding total
total-none [] f = refl
total-none (write_failed ∷ ws) f = refl
total-none (write_again ∷ ws) f = total-none ws f
total-none (wrote zero ∷ ws) f = refl
total-none (wrote (suc n) ∷ ws) (fits, f) = ground arith

-- Whatever stands in the list once all has been written.
send_from-end :
    (src sent : Bytes) (k : ℕ) (ws : List Written)
    → k ≡ length src
    → send_from src k sent ws ≡ returned (pos k) sent
unfolding send_from
send_from-end src sent k [] e = ground arith
send_from-end src sent k (write_failed ∷ ws) e = ground arith
send_from-end src sent k (write_again ∷ ws) e = ground arith
send_from-end src sent k (wrote n ∷ ws) e = ground arith

outcome-end :
    (src : Bytes) (n : ℕ) (f : Fate)
    → n ≡ length src
    → outcome src n f ≡ returned (pos n) (take n src)
unfolding outcome
outcome-end src n f e = ground arith

module _ (src : Bytes) (small : length src < int_limit) where
  -- Where all has been written, and where not.
  at_end :
      (ws : List Written) (k : ℕ)
      → k ≡ length src
      → Fits (length src - k) ws
      → send_from src k (take k src) ws ≡ outcome src (k + total ws) (fate ws)
  at_end ws k e f =
      let none_left : length src - k ≡ 0 = omega arith in
      let same : k + total ws ≡ k = omega (arith, total-none ws (rw none_left at f)) in
      rw same (send_from-end src (take k src) k ws e ∙ sym (outcome-end src k (fate ws) e))

  outcome-stop :
      (k : ℕ) (f : Fate)
      → (k == length src) ≡ false
      → outcome src (k + 0) f ≡ elim f [
        | more ↦ waiting (take k src)
        | nothing ↦ returned (pos k) (take k src)
        | error ↦ returned minus_one (take k src)
      ]
  unfolding outcome
  outcome-stop k f e =
      let same : k + 0 ≡ k = omega arith in ap (λ m. outcome src m f) same ∙ rw e refl

  send_from-outcome :
      (ws : List Written) (k : ℕ)
      → k ≤ length src
      → Fits (length src - k) ws
      → send_from src k (take k src) ws ≡ outcome src (k + total ws) (fate ws)
  unfolding send_from total fate
  send_from-outcome [] k h f = elim (Bool-cases (k == length src)) [
    | inl e ↦ at_end [] k (ground arith) f
    | inr e ↦ rw e (sym (outcome-stop k more e))
  ]
  send_from-outcome (write_failed ∷ ws) k h f = elim (Bool-cases (k == length src)) [
    | inl e ↦ at_end (write_failed ∷ ws) k (ground arith) f
    | inr e ↦ rw e (sym (outcome-stop k error e))
  ]
  send_from-outcome (write_again ∷ ws) k h f = elim (Bool-cases (k == length src)) [
    | inl e ↦ at_end (write_again ∷ ws) k (ground arith) f
    | inr e ↦ rw e (send_from-outcome ws k h f)
  ]
  send_from-outcome (wrote n ∷ ws) k h (fits, f) = elim (Bool-cases (k == length src)) [
    | inl e ↦ at_end (wrote n ∷ ws) k (ground arith) (fits, f)
    | inr e ↦ elim (Bool-cases (n == 0)) [
      | inl z ↦ rw (e, z) (sym (outcome-stop k nothing e))
      | inr p ↦
          let less : length src - k - n ≡ length src - (k + n) = omega arith in
          let sum : k + (n + total ws) ≡ k + n + total ws = omega arith in
          let int : ltb (k + n) int_limit ≡ true = lt→ltb (k + n) int_limit (omega arith) in
          rw (e, p, int, take-drop k n src, sum)
            (send_from-outcome ws (k + n) (omega arith) (rw less at f))
    ]
  ]

-- Where `src` is shorter than 2^31 bytes and no write writes more than what is left: while the writes write something or are to be
-- repeated, `sock2_send` goes on behind what they have written. It returns the length once all
-- bytes of `src` are written, in their order, the number of those that are when a write writes
-- nothing before that, and -1 when one fails.
pub sock2_send-outcome :
    (src : Bytes) (ws : List Written)
    → length src < int_limit
    → Fits (length src) ws
    → sock2_send (some src) ws ≡ outcome src (total ws) (fate ws)
unfolding sock2_send
sock2_send-outcome src ws small f =
    let all : length src - 0 ≡ length src = omega arith in
    let same : 0 + total ws ≡ total ws = omega arith in
    rw same at (send_from-outcome src small ws 0 (omega arith) (rw all f))
