-- ===== src/Sock2/Delivery.antt =====
-- Lines in the buffer become the messages of the client: the inner loop of sock2_read_from_client.
use mathlib.Core.List.{append-nil, append_assoc}
use secoli_sced.Base.{
  Bytes, ℕ, zero, suc, ◌+◌, ◌≤◌, ◌<◌, ◌≡◌, refl, ap, true, List, [], ◌∷◌, ◌++◌, map, Option, none,
  some, ltb, length, length-append, length-map, int_limit, arith,
}
use secoli_sced.Client.Messages.{nonempty}
use secoli_sced.Client.{Client, ClientPointer, client_add_message}
use secoli_sced.Parse.{string_from}
use secoli_sced.Queue.Ends.{queue_push-Waits}
use secoli_sced.Queue.Holds.{Waits}
use secoli_sced.Queue.{Queue}
use secoli_sced.Ring.Libvrb.{Vrb}
use secoli_sced.Ring.Lines.{
  is_line, ring_at, size_of, ring_read_string_empty, ring_read_string-line,
}
use secoli_sced.Ring.{Ring, ring_read_string, ends_line}
use secoli_sced.Search.{Glib}
use secoli_sced.Sock2.{deliver, take_strings}

-- A line with the byte that ends it.
abbrev pub Line : Type 0
Line = Bytes × ℕ

unfoldable pub text_of : List Line → Bytes
text_of [] = []
text_of ((line, c) ∷ ls) = line ++ c ∷ text_of ls

abbrev pub AreLines : List Line → Type 0
AreLines [] = Unit
AreLines ((line, c) ∷ ls) = (is_line line ≡ true) × (ends_line c ≡ true) × AreLines ls

unfoldable pub lines_of : List Line → List Bytes
lines_of = map (λ l. l.0)

pub length-lines_of : (ls : List Line) → length (lines_of ls) ≡ length ls
unfolding lines_of
length-lines_of ls = length-map (λ l. l.0) ls

-- xmalloc finds as much memory as it is asked for.
abbrev pub Finds : (ℕ → Option Bytes) → Type 0
Finds memory = (n : ℕ) → (target : Bytes) × (memory n ≡ some target) × (length target ≡ n)

pub length-text_of : (ls : List Line) → length ls ≤ length (text_of ls)
unfolding text_of
length-text_of [] = omega arith
length-text_of ((line, c) ∷ ls) =
    omega (arith, length-append line (c ∷ text_of ls), length-text_of ls)

string_from-line : (line : Bytes) → is_line line ≡ true → string_from (line ++ 0 ∷ []) ≡ line
unfolding string_from is_line
string_from-line [] l = refl
string_from-line (c ∷ line) l = ground (arith, string_from-line line)

pub nonempty-append : (xs ys : List Bytes) → nonempty (xs ++ ys) ≡ nonempty xs ++ nonempty ys
unfolding nonempty
nonempty-append [] ys = refl
nonempty-append ([] ∷ xs) ys = nonempty-append xs ys
nonempty-append ((c ∷ m) ∷ xs) ys = ap (◌∷◌ (c ∷ m)) (nonempty-append xs ys)

pub length-nonempty : (xs : List Bytes) → length (nonempty xs) ≤ length xs
unfolding nonempty
length-nonempty [] = omega arith
length-nonempty ([] ∷ xs) = omega (arith, length-nonempty xs)
length-nonempty ((c ∷ m) ∷ xs) = omega (arith, length-nonempty xs)

module _ (V : Vrb) (G : Glib) where
  -- The messages of a client, with `xs` in them, once a line has been delivered.
  pub data Delivered (c : Client G) (xs : List Bytes) : ClientPointer G → Type 0 where
    delivered :
        (q : Option (Queue (G Bytes)))
        → Waits (G Bytes) xs q
        → Delivered c xs (some (record c { messages = q }))

  deliver-line :
      (c : Client G) (xs : List Bytes) (line : Bytes)
      → Waits (G Bytes) xs c.messages
      → suc (length xs) < int_limit
      → is_line line ≡ true
      → Delivered c (xs ++ nonempty (line ∷ [])) (deliver V G (some c) (some (line ++ 0 ∷ [])))
  unfolding client_add_message nonempty
  deliver-line c xs [] h room l = rw (string_from-line [] l, append-nil xs) (delivered c.messages h)
  deliver-line c xs (b ∷ m) h room l =
      let is_long : ltb 0 (suc (length m)) ≡ true = ground arith in
      let h' = queue_push-Waits (G Bytes) (b ∷ m) h room in
      rw (string_from-line (b ∷ m) l, is_long) (delivered _ h')

  -- What the inner loop leaves: an empty buffer of the same size, and the messages `xs`.
  pub data Took (size : ℕ) (c : Client G) (xs : List Bytes)
      : Option (Option (Ring V) × ClientPointer G) → Type 0 where
    took :
        {c' : ClientPointer G} (w : V.Carrier)
        → V.vrb_data_ptr w ≡ []
        → size_of V w ≡ size
        → Delivered c xs c'
        → Took size c xs (some (ring_at V w, c'))

  -- The client's other fields stay.
  pub again :
      {c : Client G} {q : Option (Queue (G Bytes))} {xs : List Bytes} {size : ℕ}
      {r : Option (Option (Ring V) × ClientPointer G)}
      → Took size (record c { messages = q }) xs r
      → Took size c xs r
  again (took w d s (delivered q h)) = took w d s (delivered q h)

  more_room :
      (xs : List Bytes) (line : Bytes) (n : ℕ)
      → length xs + suc n < int_limit
      → length (xs ++ nonempty (line ∷ [])) + n < int_limit
  more_room xs line n h =
      omega (arith, length-append xs (nonempty (line ∷ [])), length-nonempty (line ∷ []))

  -- The rest of the loop once a line has been delivered.
  resume :
      (c : Client G) (xs : List Bytes) (line : Bytes) (ls : List Line) (size : ℕ)
      (r : ClientPointer G → Option (Option (Ring V) × ClientPointer G)) (c' : ClientPointer G)
      → Delivered c (xs ++ nonempty (line ∷ [])) c'
      → ((q : Option (Queue (G Bytes)))
          → Waits (G Bytes) (xs ++ nonempty (line ∷ [])) q
          → Took size
              (record c { messages = q })
              ((xs ++ nonempty (line ∷ [])) ++ nonempty (lines_of ls))
              (r (some (record c { messages = q }))))
      → Took size c (xs ++ nonempty (line ∷ lines_of ls)) (r c')
  resume c xs line ls size r c' (delivered q h) k =
      rw
        (
          nonempty-append (line ∷ []) (lines_of ls),
          ← append_assoc xs (nonempty (line ∷ [])) (nonempty (lines_of ls)),
        )
        (again (k q h))

  take_strings-end :
      (memory : ℕ → Option Bytes) (fuel : ℕ) (ring ring' : Option (Ring V)) (c : ClientPointer G)
      → ring_read_string V memory ring ≡ some (none, ring')
      → take_strings V G (suc fuel) memory ring c ≡ some (ring', deliver V G c none)
  unfolding take_strings
  take_strings-end memory fuel ring ring' c e = rw (e, take_strings) refl

  take_strings-next :
      (memory : ℕ → Option Bytes) (fuel : ℕ) (ring ring' : Option (Ring V)) (c : ClientPointer G)
      (str : Bytes)
      → ring_read_string V memory ring ≡ some (some str, ring')
      → take_strings V G (suc fuel) memory ring c
        ≡ take_strings V G fuel memory ring' (deliver V G c (some str))
  unfolding take_strings
  take_strings-next memory fuel ring ring' c str e = rw (e, take_strings) refl

  pub take_strings-Took :
      (memory : ℕ → Option Bytes) (fuel : ℕ) (v : V.Carrier) (ls : List Line) (c : Client G)
      (xs : List Bytes)
      → Finds memory
      → length ls < fuel
      → V.vrb_data_ptr v ≡ text_of ls
      → AreLines ls
      → Waits (G Bytes) xs c.messages
      → length xs + length ls < int_limit
      → Took
          (size_of V v)
          c
          (xs ++ nonempty (lines_of ls))
          (take_strings V G fuel memory (ring_at V v) (some c))
  unfolding lines_of text_of client_add_message nonempty
  take_strings-Took memory zero v ls c xs m f d a h room = absurd (omega arith)
  take_strings-Took memory (suc fuel) v [] c xs m f d a h room =
      rw
        (
          take_strings-end memory fuel _ _ (some c) (ring_read_string_empty V memory v d),
          append-nil xs,
        )
        (took v d refl (delivered c.messages h))
  take_strings-Took memory (suc fuel) v ((line, e) ∷ ls) c xs m f d (l, ends, a) h room =
      let (target, found, long) = m (suc (length line)) in
      let ((w, read, rest), same) =
        ring_read_string-line V memory v line (text_of ls) target e d l ends found long in
      rw (take_strings-next memory fuel _ _ (some c) _ read, ← same)
        (resume c xs line ls (size_of V w) (take_strings V G fuel memory (ring_at V w))
          (deliver V G (some c) (some (line ++ 0 ∷ []))) (deliver-line c xs line h (omega arith) l)
          (λ q h'.
            take_strings-Took memory fuel w ls (record c { messages = q })
              (xs ++ nonempty (line ∷ [])) m (omega arith) rest a h'
              (more_room xs line (length ls) room)))
