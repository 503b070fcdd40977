-- ===== src/Commands/Inbox.antt =====
-- src/parse.c: the loop of `parse_all_client_messages` over the messages of one client.
pub mod Emptied
use secoli_sced.Action.{pure, gets, unless_null, ◌>>=◌, ◌>>◌}
use secoli_sced.Base.{Bytes, ℕ, zero, suc, Bool, Option, if◌then◌else◌, none, some}
use secoli_sced.Client.{
  Client, ClientPointer, client_get_message, client_get_destroy, client_reset_elapsed_time,
}
use secoli_sced.Commands.Dispatch.{parse_message}
use secoli_sced.Search.{Glib}
use secoli_sced.World.{World, Host, Do, client_of, set_client}
use secoli_sced.Xsqlite.{Sqlite}

-- There is no message left, the client is to be destroyed, which the caller of the loop does by
-- `sock_destroy_client_socket`, or a handler has called `exit`. `unfinished` is for the fuel.
pub data Outcome : Type 0 where
  drained destroyed exited unfinished : Outcome

module _ (S : Sqlite) (G : Glib) (H : Host G) where
  -- The client that a call leaves, whose address does not change.
  abbrev put_client : ClientPointer G → Do S G (Unit {0})
  put_client c = unless_null c (pure tt) (set_client S G)

  unfoldable pub take_message : Do S G (Option Bytes)
  unfolding client_get_message unless_null ◌>>=◌
  take_message =
      client_of S G >>= λ c. let r = client_get_message G (some c) in put_client r.1 >> pure r.0

  -- What follows a call of `parse_message`.
  unfoldable pub after_message : Do S G Outcome → Do S G Outcome
  unfolding client_get_destroy client_reset_elapsed_time unless_null ◌>>=◌
  after_message next = gets (λ w. w.has_exited) >>= λ has_exited.
      if has_exited
      then pure exited
      else (client_of S G >>= λ c.
          if client_get_destroy G (some c)
          then pure destroyed
          else (put_client (client_reset_elapsed_time G (some c)).1 >> next))

  -- In round `n`, counted down, `memory n` is what xmalloc returns for the arguments.
  unfoldable pub handle_messages : (ℕ → Option Bytes) → ℕ → Do S G Outcome
  unfolding take_message after_message parse_message unless_null ◌>>=◌
  handle_messages memory zero = pure unfinished
  handle_messages memory (suc n) = take_message >>= λ str.
      unless_null str (pure drained) (λ message.
        parse_message S G H (memory n) message >>= λ _. after_message (handle_messages memory n))
