-- ===== src/Ring/Tests.antt =====
-- A line written to a buffer and read back.
use secoli_sced.Base.{Bytes, ℕ, Option, codes, ◌≡◌, refl, arith, [], ◌∷◌, ◌++◌, some, pos, true}
use secoli_sced.Ring.Libvrb.{list_vrb}
use secoli_sced.Ring.Lines.{ring_at, ring_write-ring_read_string, is_line, NextLine}
use secoli_sced.Ring.{ring_create, ring_write}

abbrev memory : ℕ → Option Bytes
memory n = some (7 ∷ 7 ∷ 7 ∷ 7 ∷ [])

ring_write-ring_read_string_example :
    (w : list_vrb.Carrier) × (ring_create list_vrb true 9 ≡ ring_at list_vrb ([], 9))
    × (ring_write list_vrb (ring_at list_vrb ([], 9)) (some (codes "WHO" ++ 10 ∷ codes "QU"))
        ≡ (pos 0, ring_at list_vrb w))
    × NextLine list_vrb memory w (codes "WHO") (codes "QU")
unfolding is_line
ring_write-ring_read_string_example =
    ring_write-ring_read_string list_vrb memory ([], 9) 9 (codes "WHO") (codes "QU")
      (7 ∷ 7 ∷ 7 ∷ 7 ∷ []) 10 refl (omega arith) refl refl refl refl
