-- ===== src/Sock2/Receiving.antt =====
-- Lines that are read from a socket become the messages of the client: sock2_read_from_client.
use mathlib.Core.List.{append-nil, append_assoc}
use secoli_sced.Base.{
  Bytes, ℕ, suc, ◌+◌, ◌≤◌, ◌<◌, ◌≡◌, refl, ap, ◌∙◌, List, [], ◌∷◌, ◌++◌, map, Option, none, some,
  length, take, take_all, length-append, int_limit, ℤ, pos, minus_one, arith,
}
use secoli_sced.Client.Messages.{nonempty}
use secoli_sced.Client.{Client, ClientPointer}
use secoli_sced.Queue.Holds.{Waits}
use secoli_sced.Queue.{Queue}
use secoli_sced.Ring.Libvrb.{Vrb}
use secoli_sced.Ring.Lines.{ring_at, size_of, ring_write-fits}
use secoli_sced.Ring.{Ring, ring_write, ring_get_max_write, ring_get_max_read}
use secoli_sced.Search.{Glib}
use secoli_sced.Sock2.Delivery.{
  Line, text_of, AreLines, Finds, Delivered, delivered, Took, took, lines_of, take_strings-Took,
  length-text_of, length-lines_of, nonempty-append, length-nonempty,
}
use secoli_sced.Sock2.{
  End, read_again, max_message, end_of_reads, next_maxlen, receive, sock2_read_from_client,
}

-- What the reads give: lines with their ends, in chunks that a read of 8192 bytes can give.
abbrev pub AreChunks : List (List Line) → Type 0
AreChunks [] = Unit
AreChunks (ls ∷ chunks) =
    AreLines ls × (0 < length (text_of ls)) × (length (text_of ls) ≤ max_message) × AreChunks chunks

unfoldable pub all_lines : List (List Line) → List Bytes
unfolding lines_of
all_lines [] = []
all_lines (ls ∷ chunks) = lines_of ls ++ all_lines chunks

abbrev pub status : End → ℤ
status e = elim e [ read_again ↦ pos 0 | _ ↦ minus_one ]

module _ (V : Vrb) (G : Glib) where
  -- The buffer is empty then, of the same size, and the client has the messages `xs`.
  pub data Received (e : End) (size : ℕ) (c : Client G) (xs : List Bytes)
      : Option (ℤ × Option (Ring V) × ClientPointer G) → Type 0 where
    received :
        {c' : ClientPointer G} (w : V.Carrier)
        → V.vrb_data_ptr w ≡ []
        → size_of V w ≡ size
        → Delivered V G c xs c'
        → Received e size c xs (some (status e, ring_at V w, c'))

  kept :
      {e : End} {size : ℕ} {c : Client G} {q : Option (Queue (G Bytes))} {xs : List Bytes}
      {r : Option (ℤ × Option (Ring V) × ClientPointer G)}
      → Received e size (record c { messages = q }) xs r
      → Received e size c xs r
  kept (received w d s (delivered q h)) = received w d s (delivered q h)

  -- A chunk that is put into an empty buffer.
  stored :
      (v : V.Carrier) (text : Bytes)
      → V.vrb_data_ptr v ≡ []
      → 0 < length text
      → length text ≤ size_of V v
      → (w : V.Carrier) × (ring_write V (ring_at V v) (some text) ≡ (pos 0, ring_at V w))
        × (V.vrb_data_ptr w ≡ text)
        × (size_of V w ≡ size_of V v)
  stored v text d l fits =
      let empty : length (V.vrb_data_ptr v) ≡ 0 = ap length d in
      let whole : take (V.vrb_space_len v) text ≡ text = take_all _ text (omega (arith, empty)) in
      (
        (V.vrb_put v text).1,
        ring_write-fits V v text l (V.vrb_put-count v text ∙ ap length whole),
        V.vrb_put-data v text ∙ rw (d, whole) refl,
        V.vrb_put-size v text,
      )

  end_of_reads-Received :
      (e : End) (v : V.Carrier) (c : Client G) (xs : List Bytes)
      → V.vrb_data_ptr v ≡ []
      → Waits (G Bytes) xs c.messages
      → Received e (size_of V v) c xs (some (end_of_reads V G e (ring_at V v) (some c)))
  unfolding end_of_reads ring_get_max_read
  end_of_reads-Received e v c xs d h =
      let nothing : V.vrb_data_len v ≡ 0 = V.vrb_data_len-length v ∙ ap length d in
      rw nothing (received v d refl (delivered c.messages h))

  next_maxlen-max :
      (v : V.Carrier)
      → V.vrb_data_ptr v ≡ []
      → max_message ≤ size_of V v
      → next_maxlen V G (ring_at V v) ≡ max_message
  unfolding next_maxlen ring_get_max_write
  next_maxlen-max v d h = let nothing : length (V.vrb_data_ptr v) ≡ 0 = ap length d in ground arith

  -- The outer loop once the inner one has ended.
  proceed :
      (memory : ℕ → Option Bytes) (n : ℕ) (e : End) (chunks : List Bytes) (size : ℕ) (c : Client G)
      (xs ys : List Bytes) (r : Option (Option (Ring V) × ClientPointer G))
      → max_message ≤ size
      → Took V G size c xs r
      → ((w : V.Carrier) (q : Option (Queue (G Bytes)))
          → V.vrb_data_ptr w ≡ []
          → size_of V w ≡ size
          → Waits (G Bytes) xs q
          → Received e size
              (record c { messages = q })
              (xs ++ ys)
              (receive V G n memory chunks e max_message
                (ring_at V w)
                (some (record c { messages = q }))))
      → Received e size c (xs ++ ys) (elim r [
        | none ↦ none
        | some (ring, c') ↦ receive V G n memory chunks e (next_maxlen V G ring) ring c'
      ])
  proceed memory n e chunks size c xs ys r large (took w d s (delivered q h)) k =
      rw (next_maxlen-max w d (rw s large)) (kept (k w q d s h))

  receive-Received :
      (memory : ℕ → Option Bytes) (n : ℕ) (e : End) (chunks : List (List Line)) (v : V.Carrier)
      (c : Client G) (xs : List Bytes)
      → Finds memory
      → max_message ≤ n
      → max_message ≤ size_of V v
      → V.vrb_data_ptr v ≡ []
      → AreChunks chunks
      → Waits (G Bytes) xs c.messages
      → length xs + length (all_lines chunks) < int_limit
      → Received e
          (size_of V v)
          c
          (xs ++ nonempty (all_lines chunks))
          (receive V G n memory (map text_of chunks) e max_message (ring_at V v) (some c))
  unfolding receive all_lines nonempty
  receive-Received memory n e [] v c xs m big large d a h room =
      rw (append-nil xs) (end_of_reads-Received e v c xs d h)
  receive-Received memory n e (ls ∷ chunks) v c xs m big large d (a, l, fits, more) h room =
      let (w, put, data', same) = stored v (text_of ls) d l (omega arith) in
      let count = length-append (lines_of ls) (all_lines chunks) in
      let inner =
        take_strings-Took V G memory (suc n) w ls c xs m (omega (arith, length-text_of ls)) data' a
          h (omega (arith, count, length-lines_of ls)) in
      rw
        (
          put,
          ← same,
          nonempty-append (lines_of ls) (all_lines chunks),
          ← append_assoc xs (nonempty (lines_of ls)) (nonempty (all_lines chunks)),
        )
        (proceed memory n e (map text_of chunks) (size_of V w) c (xs ++ nonempty (lines_of ls))
          (nonempty (all_lines chunks)) _ (rw same large) inner
          (λ w' q d' s' h'. rw (← s') (
            receive-Received memory n e chunks w' (record c { messages = q })
              (xs ++ nonempty (lines_of ls)) m big (rw (s', same) large) d' more h'
              (omega (
                arith,
                count,
                length-append xs (nonempty (lines_of ls)),
                length-nonempty (lines_of ls),
              )))))

  -- A client whose messages are `xs`, none at a new client, sends lines, each with the byte that
  -- ends it, that reads of at most 8192 bytes give by whole lines; the buffer is empty and holds
  -- 8192 bytes or more, xmalloc finds memory, and the messages and lines are fewer than 2^31. Then
  -- `sock2_read_from_client` ends: the lines that are not empty stand behind `xs` in their order,
  -- no other field of the client has changed, the buffer is empty and of the same size, and the
  -- result is 0 if nothing more is there now, else -1.
  pub sock2_read_from_client-Received :
      (memory : ℕ → Option Bytes) (n : ℕ) (e : End) (chunks : List (List Line)) (v : V.Carrier)
      (c : Client G) (xs : List Bytes)
      → Finds memory
      → max_message ≤ n
      → max_message ≤ size_of V v
      → V.vrb_data_ptr v ≡ []
      → AreChunks chunks
      → Waits (G Bytes) xs c.messages
      → length xs + length (all_lines chunks) < int_limit
      → Received e
          (size_of V v)
          c
          (xs ++ nonempty (all_lines chunks))
          (sock2_read_from_client V G n memory (map text_of chunks) e (ring_at V v) (some c))
  unfolding sock2_read_from_client
  sock2_read_from_client-Received = receive-Received
