-- ===== src/Commands/Inbox/Emptied.antt =====
-- The loop over the messages of a client ends.
use secoli_sced.Action.{pure, unless_null, bind, ◌>>=◌}
use secoli_sced.Base.{
  Bytes, ℕ, zero, suc, Bool, true, false, ◌≡◌, refl, ◌<◌, Option, List, [], ◌∷◌, none, some, pos,
  length, arith, if◌then◌else◌,
}
use mathlib.Core.List.{Memᴰ}
use secoli_sced.Client.{Client, client_get_message, client_get_destroy, client_reset_elapsed_time}
use secoli_sced.Commands.Dispatch.{parse_message}
use secoli_sced.Commands.Effects.Messages.{execute-HasEffect}
use secoli_sced.Commands.Effects.{Effect, keeps_all, logs_in, logs_out, quits, exits}
use secoli_sced.Commands.Handlers.{unavailable}
use secoli_sced.Commands.Inbox.{
  Outcome, drained, destroyed, exited, take_message, after_message, handle_messages,
}
use secoli_sced.Commands.Keeping.Plain.{unavailable-IsKept}
use secoli_sced.Parse.{Arguments, fault, too_many, arguments, parse_arguments}
use secoli_sced.Queue.Ends.{queue_dequeue-Waits, queue_dequeue-none}
use secoli_sced.Queue.{queue_dequeue}
use secoli_sced.Queue.Holds.{Waits}
use secoli_sced.Search.{Glib}
use secoli_sced.World.Kept.{Kept, kept, Ends, bind-IsKept, pure-IsKept}
use secoli_sced.World.{World, Host, Do}
use secoli_sced.Xsqlite.{Sqlite}

module _ (S : Sqlite) (G : Glib) (H : Host G) where
  -- How the loop can end, for a client with the messages `xs`.
  pub data Result (memory : ℕ → Option Bytes) (xs : List Bytes)
      : Option (Outcome × World G S) → Type 0 where
    is_drained :
        {w : World G S}
        → Waits (G Bytes) [] w.client.messages
        → Result memory xs (some (drained, w))
    is_destroyed :
        {w : World G S}
        → client_get_destroy G (some w.client) ≡ true
        → Result memory xs (some (destroyed, w))
    is_exited : {w : World G S} → w.has_exited ≡ true → Result memory xs (some (exited, w))
    is_fault :
        (n : ℕ) (m : Bytes) (w : World G S)
        → Memᴰ m xs
        → parse_message S G H (memory n) m w ≡ none
        → Result memory xs none

  Result-later :
      {memory : ℕ → Option Bytes} {x : Bytes} {xs : List Bytes} {r : Option (Outcome × World G S)}
      → Result memory xs r
      → Result memory (x ∷ xs) r
  Result-later (is_drained h) = is_drained h
  Result-later (is_destroyed h) = is_destroyed h
  Result-later (is_exited h) = is_exited h
  Result-later (is_fault n m w i e) = is_fault n m w (Memᴰ.tail i) e

  Effect-messages :
      {argv : List Bytes} {w w' : World G S}
      → Effect S G H argv w w'
      → w'.client.messages ≡ w.client.messages
  Effect-messages (keeps_all (kept u s m x ls t)) = m
  Effect-messages (logs_in c n p e s x i) = i
  Effect-messages (logs_out u x i) = i
  Effect-messages (quits u x i) = i
  Effect-messages (exits v e u i) = i

  -- From the world `w`, the messages that wait are left.
  abbrev Leaves : World G S → Option (Unit {0} × World G S) → Type 0
  Leaves w = Ends S G (λ a w'. w'.client.messages ≡ w.client.messages)

  executed :
      (argv : List Bytes) (w : World G S) (r : Option (Unit {0} × World G S))
      → Ends S G (λ a w'. Effect S G H argv w w') r
      → Leaves w r
  executed argv w none e = tt
  executed argv w (some (a, w')) e = Effect-messages e

  refused :
      (w : World G S) (r : Option (Unit {0} × World G S))
      → Ends S G (λ a w'. Kept S G w w') r
      → Leaves w r
  refused w none e = tt
  refused w (some (a, w')) (kept u s m x ls t) = m

  unavailable-Leaves : (w : World G S) → Leaves w ((unavailable S G H >>= λ _. pure tt) w)
  unavailable-Leaves w =
      refused w _ ((bind-IsKept S G _ _ (unavailable-IsKept S G H) λ _. pure-IsKept S G tt).at w)

  parse_message-Leaves :
      (space : Option Bytes) (m : Bytes) (w : World G S) → Leaves w (parse_message S G H space m w)
  unfolding parse_message ◌>>=◌
  parse_message-Leaves none m w = unavailable-Leaves w
  parse_message-Leaves (some space) m w = go (parse_arguments space m) refl
    where
      go :
          (a : Arguments)
          → parse_arguments space m ≡ a
          → Leaves w (parse_message S G H (some space) m w)
      go fault e = rw (e, parse_message) tt
      go too_many e = rw (e, parse_message) (unavailable-Leaves w)
      go (arguments argv) e =
          rw (e, parse_message) (executed argv w _ ((execute-HasEffect S G H argv).at w))

  if-Result :
      {memory : ℕ → Option Bytes} {xs : List Bytes} (b : Bool) (m k : Do S G Outcome)
      (w : World G S)
      → (b ≡ true → Result memory xs (m w))
      → (b ≡ false → Result memory xs (k w))
      → Result memory xs ((if b then m else k) w)
  if-Result true m k w p q = p refl
  if-Result false m k w p q = q refl

  -- What is known when `after_message` runs, and of the rest of the loop.
  after_message-Result :
      (memory : ℕ → Option Bytes) (xs : List Bytes) (next : Do S G Outcome) (w : World G S)
      → ((c : Client G)
          → c.messages ≡ w.client.messages
          → Result memory xs (next (record w { client = c })))
      → Result memory xs (after_message S G H next w)
  unfolding after_message client_get_destroy client_reset_elapsed_time ◌>>=◌ unless_null
  after_message-Result memory xs next w h = if-Result w.has_exited (pure exited) _ w is_exited λ _.
      if-Result w.client.destroy (pure destroyed) _ w is_destroyed
        λ _. h (record w.client { elapsed_time = pos 0 }) refl

  -- The rest of the loop, for what `parse_message` gives.
  continued :
      (memory : ℕ → Option Bytes) (x : Bytes) (xs : List Bytes) (n : ℕ) (w : World G S)
      (next : Do S G Outcome) (r : Option (Unit {0} × World G S))
      → parse_message S G H (memory n) x w ≡ r
      → Leaves w r
      → ((w' : World G S) → w'.client.messages ≡ w.client.messages → Result memory xs (next w'))
      → Result memory (x ∷ xs) (bind r λ _. next)
  continued memory x xs n w next none e k f = is_fault n x w (Memᴰ.head refl) e
  continued memory x xs n w next (some (a, w')) e k f = Result-later (f w' k)

  -- With more rounds than there are messages, of which there may be none, as at a new client,
  -- whatever xmalloc returns, the loop over them ends: with none left, with the client to be
  -- destroyed, by a call of `exit`, or by a fault of `parse_message` at one of them.
  pub handle_messages-Result :
      (memory : ℕ → Option Bytes) (xs : List Bytes) (n : ℕ) (w : World G S)
      → Waits (G Bytes) xs w.client.messages
      → length xs < n
      → Result memory xs (handle_messages S G H memory n w)
  unfolding handle_messages take_message client_get_message ◌>>=◌ unless_null
  handle_messages-Result memory xs zero w h l = ground arith
  handle_messages-Result memory [] (suc n) w h l =
      let (v, rest) = queue_dequeue-none (G Bytes) h in rw v (is_drained rest)
  handle_messages-Result memory (x ∷ xs) (suc n) w h l =
      let (v, rest) = queue_dequeue-Waits (G Bytes) h in
      let w1 = record w {
        client = (record w.client { messages = (queue_dequeue (G Bytes) w.client.messages).1 });
      } in
      rw v (
        continued memory x xs n w1 (after_message S G H (handle_messages S G H memory n)) _ refl
          (parse_message-Leaves (memory n) x w1)
          (λ w2 same. after_message-Result memory xs (handle_messages S G H memory n) w2 λ c e.
            handle_messages-Result memory xs n (record w2 { client = c }) (rw (e, same) rest)
              (omega arith)))
