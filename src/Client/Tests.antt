-- ===== src/Client/Tests.antt =====
-- A client, and the theorems at it.
use secoli_sced.Base.{
  Bytes, codes, ℕ, suc, ◌≤◌, ◌≡◌, refl, arith, true, false, [], ◌∷◌, map, none, some, pos,
  minus_one,
}
use secoli_sced.Queue.Glib.{list_queue}
use secoli_sced.Queue.Ends.{queue_create-Waits}
use secoli_sced.Queue.{queue_create}
use secoli_sced.Client.{Client, client_get_destroy, client_set_timeout, client_get_timeout}
use secoli_sced.Client.Timeouts.{
  sum, check_all, check_all-sum, client_set_timeout-shorter, client_get_timeout-client_set_timeout,
}
use secoli_sced.Client.Messages.{nonempty, get_all, add_all, client_add_message-client_get_message}

-- Ten microseconds, and one message.
abbrev impatient : Client list_queue
impatient = record {
  sock = pos 5;
  destroy = false;
  messages = some (record { queue = some (codes "HELLO") ∷ []; position = pos 0 });
  sessions = none;
  default_session = none;
  output_enc = none;
  output_handler = none;
  field_delimiter = none;
  timeout = pos 10;
  elapsed_time = pos 0;
  user_of = none;
}

check_all-sum_example :
    client_get_destroy list_queue (check_all list_queue (some impatient) (4 ∷ 5 ∷ 1 ∷ [])) ≡ true
unfolding sum
check_all-sum_example =
    check_all-sum list_queue impatient (4 ∷ 5 ∷ 1 ∷ []) 9 (omega arith) (omega arith) refl refl refl

client_set_timeout-shorter_example :
    (m : ℕ) × ((client_set_timeout list_queue (λ n. minus_one) (some impatient) (pos 60)).1
      ≡ some (record impatient { timeout = pos (suc m) }))
    × (m ≤ 9)
client_set_timeout-shorter_example =
    client_set_timeout-shorter list_queue (λ n. minus_one) impatient 9 (pos 60) refl refl

client_get_timeout-client_set_timeout_example :
    client_get_timeout list_queue
      (client_set_timeout list_queue
        (λ n. minus_one)
        (some (record impatient { timeout = pos 0 }))
        (pos 60)).1
    ≡ pos 60
client_get_timeout-client_set_timeout_example =
    client_get_timeout-client_set_timeout list_queue (λ n. minus_one)
      (record impatient { timeout = pos 0 }) 60 (omega arith) refl

-- A client without a message, as a new one.
abbrev silent : Client list_queue
silent = record impatient { messages = queue_create (list_queue Bytes) true }

client_add_message-client_get_message_example :
    get_all list_queue 1 (add_all list_queue (some silent) ([] ∷ codes "QUIT" ∷ []))
    ≡ map some (codes "QUIT" ∷ [])
unfolding nonempty
client_add_message-client_get_message_example =
    client_add_message-client_get_message list_queue ([] ∷ codes "QUIT" ∷ []) [] silent
      (queue_create-Waits (list_queue Bytes)) (omega arith)
