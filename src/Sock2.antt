-- ===== src/Sock2.antt =====
-- src/sock2.c: what is written to the socket of a client and what is read from it. What the calls
-- of the system return is an argument.
pub mod Sending
pub mod Delivery
pub mod Receiving
mod Tests
use secoli_sced.Base.{
  int_limit, Bytes, ℕ, zero, suc, ◌+◌, ◌-◌, Bool, true, false, List, [], ◌∷◌, ◌++◌, Option, none,
  some, if◌then◌else◌, ltb, ◌==◌, length, take, drop, ℤ, pos, minus_one,
}
use secoli_sced.Client.{ClientPointer, client_add_message}
use secoli_sced.Parse.{string_from}
use secoli_sced.Ring.{
  Ring, ring_write, ring_read_string, ring_get_max_write, ring_get_max_read, ring_clear,
}
use secoli_sced.Ring.Libvrb.{Vrb}
use secoli_sced.Search.{Glib}

-- `write` returns a number of bytes, or -1 with EAGAIN or another error.
pub data Written : Type 0 where
  wrote : ℕ → Written
  write_again write_failed : Written

-- `sock2_send` returns, or writes on when the list of what `write` returns is used up; with the
-- bytes that have been written. `overflow` is for a number of bytes that no int holds.
pub data Sent : Type 0 where
  returned : ℤ → Bytes → Sent
  waiting overflow : Bytes → Sent

-- The loop of `sock2_send`. `offset` and `sent` are ints; what the loop does where one of them
-- would be more than INT_MAX is not followed.
unfoldable pub send_from : Bytes → ℕ → Bytes → List Written → Sent
send_from src offset sent [] =
    if offset == length src then returned (pos offset) sent else waiting sent
send_from src offset sent (wrote n ∷ ws) =
    let offset' = offset + n in
    let rest = send_from src offset' (sent ++ take n (drop offset src)) ws in
    if offset == length src
    then returned (pos offset) sent
    else if n == 0
    then returned (pos offset) sent
    else if ltb offset' int_limit
    then rest
    else overflow sent
send_from src offset sent (write_again ∷ ws) =
    let rest = send_from src offset sent ws in
    if offset == length src then returned (pos offset) sent else rest
send_from src offset sent (write_failed ∷ ws) =
    if offset == length src then returned (pos offset) sent else returned minus_one sent

unfoldable pub sock2_send : Option Bytes → List Written → Sent
unfolding send_from
sock2_send none ws = returned minus_one []
sock2_send (some src) ws = send_from src 0 [] ws

-- How the reads from a socket end: nothing is there now, the other side has closed it, or an error.
pub data End : Type 0 where
  read_again read_closed read_failed : End

abbrev pub max_message : ℕ
max_message = 8192

module _ (V : Vrb) (G : Glib) where
  -- `if (clientSocketMap->client) client_add_message(…)`
  abbrev pub deliver : ClientPointer G → Option Bytes → ClientPointer G
  deliver none str = none
  deliver (some c) none = (client_add_message G (some c) none).1
  deliver (some c) (some str) = (client_add_message G (some c) (some (string_from str))).1

  -- The inner loop. `memory n` is what xmalloc finds for n bytes. It is none where
  -- `ring_read_string` reads past its data, or the fuel is used up.
  unfoldable pub take_strings :
      ℕ
      → (ℕ → Option Bytes)
      → Option (Ring V)
      → ClientPointer G
      → Option (Option (Ring V) × ClientPointer G)
  take_strings zero memory ring c = none
  take_strings (suc fuel) memory ring c = elim (ring_read_string V memory ring) [
    | none ↦ none
    | some (str, ring') ↦ elim str [
      | none ↦ some (ring', deliver c none)
      | some s ↦ take_strings fuel memory ring' (deliver c (some s))
    ]
  ]

  -- What follows the loop, with the ring and the client then.
  unfoldable pub end_of_reads :
      End → Option (Ring V) → ClientPointer G → ℤ × Option (Ring V) × ClientPointer G
  end_of_reads e ring c = (
    elim e [ read_again ↦ pos 0 | _ ↦ minus_one ],
    if ltb 0 (ring_get_max_read V ring) then ring_clear V ring else ring,
    c,
  )

  -- `min(MAXMSG, fr)`
  unfoldable pub next_maxlen : Option (Ring V) → ℕ
  next_maxlen ring =
      let fr = ring_get_max_write V ring in if ltb max_message fr then max_message else fr

  -- The outer loop: `sock2_recv` is given `maxlen`, and gives 0 where that is 0. `chunks` is what
  -- the reads give before they end. A ring holds at most `size_of_ring` bytes, one round of the
  -- inner loop for each and one.
  unfoldable pub receive :
      ℕ
      → (ℕ → Option Bytes)
      → List Bytes
      → End
      → ℕ
      → Option (Ring V)
      → ClientPointer G
      → Option (ℤ × Option (Ring V) × ClientPointer G)
  receive size_of_ring memory [] e maxlen ring c =
      some (end_of_reads (if maxlen == 0 then read_closed else e) ring c)
  receive size_of_ring memory (chunk ∷ chunks) e maxlen ring c =
      if maxlen == 0
      then some (end_of_reads read_closed ring c)
      else elim (take_strings (suc size_of_ring) memory (ring_write V ring (some chunk)).1 c) [
        | none ↦ none
        | some (ring', c') ↦ receive size_of_ring memory chunks e (next_maxlen ring') ring' c'
      ]

  unfoldable pub sock2_read_from_client :
      ℕ
      → (ℕ → Option Bytes)
      → List Bytes
      → End
      → Option (Ring V)
      → ClientPointer G
      → Option (ℤ × Option (Ring V) × ClientPointer G)
  unfolding receive
  sock2_read_from_client size_of_ring memory chunks e ring c =
      receive size_of_ring memory chunks e max_message ring c
