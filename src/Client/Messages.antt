-- ===== src/Client/Messages.antt =====
-- The messages of a client, first in first out.
use secoli_sced.Base.{
  Bytes, ℕ, zero, suc, ◌+◌, ◌<◌, ◌≡◌, refl, List, [], ◌∷◌, ◌++◌, map, Option, some, arith, length,
  length-append, int_limit, true, ltb,
}
use mathlib.Core.Path.{ap₂}
use mathlib.Core.List.{append-nil, append_assoc}
use secoli_sced.Queue.Ends.{queue_push-Waits, queue_dequeue-Waits}
use secoli_sced.Queue.Holds.{Waits}
use secoli_sced.Queue.{queue_push}
use secoli_sced.Search.{Glib}
use secoli_sced.Client.{Client, ClientPointer, client_add_message, client_get_message}

-- The messages that are not empty.
unfoldable pub nonempty : List Bytes → List Bytes
nonempty [] = []
nonempty ([] ∷ ms) = nonempty ms
nonempty ((c ∷ m) ∷ ms) = (c ∷ m) ∷ nonempty ms

module _ (G : Glib) where
  pub add_all : ClientPointer G → List Bytes → ClientPointer G
  add_all c [] = c
  add_all c (m ∷ ms) = add_all (client_add_message G c (some m)).1 ms

  -- What `n` calls of `client_get_message` give.
  pub get_all : ℕ → ClientPointer G → List (Option Bytes)
  get_all zero c = []
  get_all (suc n) c = (client_get_message G c).0 ∷ get_all n (client_get_message G c).1

  get_all-Waits :
      (xs : List Bytes) (c : Client G)
      → Waits (G Bytes) xs c.messages
      → get_all (length xs) (some c) ≡ map some xs
  unfolding get_all client_get_message
  get_all-Waits [] c h = refl
  get_all-Waits (x ∷ xs) c h =
      let (v, h') = queue_dequeue-Waits (G Bytes) h in ap₂ ◌∷◌ v (get_all-Waits xs _ h')

  -- The messages that wait at a client and then those that `client_add_message` adds, less the
  -- empty ones, are what as many calls of `client_get_message` give, in that order. There may be
  -- none that wait, as at a new client; all in all they are fewer than 2^31.
  pub client_add_message-client_get_message :
      (ms xs : List Bytes) (c : Client G)
      → Waits (G Bytes) xs c.messages
      → length xs + length ms < int_limit
      → get_all (length (xs ++ nonempty ms)) (add_all (some c) ms) ≡ map some (xs ++ nonempty ms)
  unfolding add_all nonempty client_add_message
  client_add_message-client_get_message [] xs c h l = rw append-nil (get_all-Waits xs c h)
  client_add_message-client_get_message ([] ∷ ms) xs c h l =
      client_add_message-client_get_message ms xs c h (omega arith)
  client_add_message-client_get_message ((b ∷ m) ∷ ms) xs c h l =
      let h' = queue_push-Waits (G Bytes) (b ∷ m) h (omega arith) in
      let room : length (xs ++ (b ∷ m) ∷ []) + length ms < int_limit =
        omega (arith, length-append xs ((b ∷ m) ∷ [])) in
      let is_long : ltb 0 (suc (length m)) ≡ true = ground arith in
      rw is_long (
        rw (append_assoc xs ((b ∷ m) ∷ []) (nonempty ms)) at (
          client_add_message-client_get_message ms (xs ++ (b ∷ m) ∷ [])
            (record c { messages = (queue_push (G Bytes) c.messages (some (b ∷ m))).1 }) h' room))
