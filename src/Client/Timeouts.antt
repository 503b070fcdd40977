-- ===== src/Client/Timeouts.antt =====
-- The timeout of a client.
use secoli_sced.Base.{
  ℕ, zero, suc, ◌+◌, ◌≤◌, ◌<◌, ◌≡◌, int_limit, refl, ap, ◌∙◌, Bool, true, false, not, ◌&&◌, List,
  [], ◌∷◌, Option, none, some, arith, ltb, leb, Bool-cases, inl, inr, ℤ, pos, negsuc, eqb_ℤ,
}
use secoli_sced.Clib.{long_limit}
use secoli_sced.Search.{Glib}
use secoli_sced.User.{User}
use secoli_sced.Client.{
  Client, ClientPointer, microseconds, client_check_timeout, client_set_destroy, client_get_destroy,
  client_get_timeout, client_set_timeout, client_get_user,
}

unfoldable pub sum : List ℕ → ℕ
sum [] = 0
sum (t ∷ ts) = t + sum ts

-- Numbers that an int holds.
abbrev pub AreInts : List ℕ → Type 0
AreInts [] = Unit
AreInts (t ∷ ts) = (t < int_limit) × AreInts ts

abbrev is_some : Option User → Bool
is_some none = false
is_some (some u) = true

module _ (G : Glib) where
  abbrev pub has_user : Client G → Bool
  has_user c = is_some c.user_of

  -- No timeout is set.
  abbrev pub has_none : Client G → Bool
  has_none c = eqb_ℤ c.timeout (pos 0)

  -- `client_check_timeout` at each step of the main loop.
  unfoldable pub check_all : ClientPointer G → List ℕ → ClientPointer G
  check_all c [] = c
  check_all c (t ∷ ts) = check_all (client_check_timeout G c (pos t)).1 ts

  check_timeout-eq :
      (c : Client G) (x limit elapsed : ℕ)
      → x < int_limit
      → c.timeout ≡ pos (suc limit)
      → c.elapsed_time ≡ pos elapsed
      → c.destroy ≡ leb (suc limit) elapsed
      → (client_check_timeout G (some c) (pos x)).1
        ≡ some
            (record c { elapsed_time = pos (elapsed + x); destroy = leb (suc limit) (elapsed + x) })
  unfolding client_check_timeout client_set_destroy
  check_timeout-eq c x limit elapsed small t e d =
      elim (Bool-cases (leb (suc limit) (elapsed + x))) [
        | inl over ↦ ground arith
        | inr under ↦ ground arith
      ]

  check_all-over :
      (ts : List ℕ) (c : Client G) (limit elapsed : ℕ)
      → AreInts ts
      → c.timeout ≡ pos (suc limit)
      → c.elapsed_time ≡ pos elapsed
      → c.destroy ≡ leb (suc limit) elapsed
      → client_get_destroy G (check_all (some c) ts) ≡ leb (suc limit) (elapsed + sum ts)
  unfolding check_all sum client_get_destroy client_check_timeout client_set_destroy
  check_all-over [] c limit elapsed small t e d = d ∙ ap (leb (suc limit)) (omega arith)
  check_all-over (x ∷ xs) c limit elapsed (small, more) t e d =
      rw (check_timeout-eq c x limit elapsed small t e d) (
        check_all-over xs _ limit (elapsed + x) more t refl refl
        ∙ ap (leb (suc limit)) (omega arith))

  -- A client whose timeout is set, and whose idle time is 0, is marked for removal by the calls
  -- of `client_check_timeout`, whatever the times between them, exactly when these add up to the
  -- timeout or more. Each time is an int, and their sum a long.
  pub check_all-sum :
      (c : Client G) (ts : List ℕ) (limit : ℕ)
      → AreInts ts
      → sum ts < long_limit
      → c.timeout ≡ pos (suc limit)
      → c.elapsed_time ≡ pos 0
      → c.destroy ≡ false
      → client_get_destroy G (check_all (some c) ts) ≡ leb (suc limit) (sum ts)
  check_all-sum c ts limit small fits t e d =
      check_all-over ts c limit 0 small t e (d ∙ ground arith) ∙ ap (leb (suc limit)) (omega arith)

  -- The timeout of a client without a user that has one set is only ever made shorter, and never
  -- taken away, by `client_set_timeout`, whatever its argument and the value of an int overflow.
  pub client_set_timeout-shorter :
      (overflow : ℕ → ℤ) (c : Client G) (n : ℕ) (timeout : ℤ)
      → c.user_of ≡ none
      → c.timeout ≡ pos (suc n)
      → (m : ℕ) × ((client_set_timeout G overflow (some c) timeout).1
          ≡ some (record c { timeout = pos (suc m) }))
        × (m ≤ n)
  unfolding client_set_timeout client_get_user
  client_set_timeout-shorter overflow c n timeout u t = go (microseconds overflow timeout) refl
    where
      go :
          (v : ℤ)
          → microseconds overflow timeout ≡ v
          → (m : ℕ) × ((client_set_timeout G overflow (some c) timeout).1
              ≡ some (record c { timeout = pos (suc m) }))
            × (m ≤ n)
      go (negsuc k) e = (n, ground arith, omega arith)
      go (pos zero) e = (n, ground arith, omega arith)
      go (pos (suc k)) e = elim (Bool-cases (ltb (suc k) (suc n))) [
        | inl less ↦ (k, ground arith, ground arith)
        | inr more ↦ (n, ground arith, omega arith)
      ]

  -- A timeout of up to 2147 seconds that is set for a client without one, or with a user, is read
  -- back by `client_get_timeout`.
  pub client_get_timeout-client_set_timeout :
      (overflow : ℕ → ℤ) (c : Client G) (n : ℕ)
      → n ≤ 2147
      → not (has_user c) && not (has_none c) ≡ false
      → client_get_timeout G (client_set_timeout G overflow (some c) (pos n)).1 ≡ pos n
  unfolding client_set_timeout client_get_timeout microseconds client_get_user
  client_get_timeout-client_set_timeout overflow c n l free = ground arith
