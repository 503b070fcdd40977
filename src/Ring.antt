-- ===== src/Ring.antt =====
-- src/ring.c: the buffer for what clients send, over libvrb. `ring_destroy` only frees memory.
pub mod Libvrb
pub mod Lines
mod Tests
use secoli_sced.Base.{
  Bytes, ℕ, suc, ◌+◌, ◌-◌, ◌^◌, Bool, true, false, ◌&&◌, ◌||◌, List, [], ◌∷◌, ◌++◌, Option, none,
  some, if◌then◌else◌, ltb, ◌==◌, ℤ, pos, minus_one, length, set, drop, map,
}
use secoli_sced.Ring.Libvrb.{Vrb}

abbrev pub ends_line : ℕ → Bool
ends_line c = c == 13 || c == 10 || c == 0

-- The loop, with `n` before `--n`; its condition always holds, since `n` is unsigned. It is none
-- where the loop runs past the data.
unfoldable pub find_line_end : Bytes → ℕ → Option ℕ
find_line_end [] n = none
find_line_end (c ∷ cs) n =
    let rest = find_line_end cs (n - 1) in if ends_line c then some (n - 1) else rest

module _ (V : Vrb) where
  -- The pointer may be NULL between the two calls of `ring_create`.
  pub record Ring : Type 0 where
    pub vrb : Option V.Carrier

  -- `made` is whether xmalloc finds memory.
  unfoldable pub ring_create : Bool → ℕ → Option Ring
  ring_create false size = none
  ring_create true size = elim (V.vrb_new size) [
    | none ↦ none
    | some v ↦ some (record { vrb = some v })
  ]

  abbrev with_vrb : {A : Type 0} → Option Ring → A → (V.Carrier → A) → A
  with_vrb none a f = a
  with_vrb (some r) a f = elim r.vrb [ none ↦ a | some v ↦ f v ]

  abbrev ring_of : V.Carrier → Option Ring
  ring_of v = some (record { vrb = some v })

  -- `memset` writes through the pointer that `vrb_data_ptr` gives.
  unfoldable pub ring_clear : Option Ring → Option Ring
  ring_clear buf = with_vrb buf buf (λ v.
      if V.vrb_is_empty v then buf else ring_of (V.write_data v (map (λ c. 0) (V.vrb_data_ptr v))))

  unfoldable pub ring_get_max_write : Option Ring → ℕ
  ring_get_max_write buf = with_vrb buf 0 V.vrb_space_len

  unfoldable pub ring_get_max_read : Option Ring → ℕ
  ring_get_max_read buf = with_vrb buf 0 V.vrb_data_len

  -- The `size` bytes at `source`.
  unfoldable pub ring_write : Option Ring → Option Bytes → ℤ × Option Ring
  ring_write buf none = (minus_one, buf)
  ring_write buf (some source) =
      if length source == 0
      then (minus_one, buf)
      else with_vrb buf (minus_one, buf)
          (λ v.
            let r = V.vrb_put v source in
            (if ltb r.0 (length source) then minus_one else pos 0, ring_of r.1))

  -- The result is a size_t, so -1 is 2^64 - 1. What is not read of `target` stays.
  unfoldable pub ring_read : Option Ring → Option Bytes → ℕ → ℕ × Option Bytes × Option Ring
  ring_read buf none size = (2 ^ 64 - 1, none, buf)
  ring_read buf (some target) size =
      if size == 0
      then (2 ^ 64 - 1, some target, buf)
      else with_vrb buf (2 ^ 64 - 1, some target, buf)
          (λ v.
            let r = V.vrb_get v size in
            (length r.0, some (r.0 ++ drop (length r.0) target), ring_of r.1))

  -- From the call of xmalloc on; `size` bytes are read.
  unfoldable pub read_line : Option Bytes → Option Ring → ℕ → Option (Option Bytes × Option Ring)
  unfolding ring_read
  read_line none buf size = some (none, buf)
  read_line (some target) buf size =
      let (read, filled, rest) = ring_read buf (some target) size in
      elim filled [ none ↦ none | some text ↦ some (some (set text (size - 1) 0), rest) ]

  -- `memory size` is what xmalloc returns, with what is in it.
  unfoldable pub ring_read_string :
      (ℕ → Option Bytes) → Option Ring → Option (Option Bytes × Option Ring)
  unfolding find_line_end read_line
  ring_read_string memory buf = with_vrb buf (some (none, buf)) (λ v.
      if V.vrb_is_empty v
      then some (none, buf)
      else elim (find_line_end (V.vrb_data_ptr v) (V.vrb_data_len v)) [
        | none ↦ none
        | some n ↦ read_line (memory (V.vrb_data_len v - n)) buf (V.vrb_data_len v - n)
      ])
