-- ===== src/Sock2/Tests.antt =====
-- A text that is sent and a text that is read, and the theorems at them.
use secoli_sced.Base.{
  true, Bytes, codes, ℕ, zero, suc, ◌≡◌, refl, ap, false, List, [], ◌∷◌, map, Option, none, some,
  length, pos, arith,
}
use secoli_sced.Client.Messages.{nonempty}
use secoli_sced.Client.{Client}
use secoli_sced.Queue.Glib.{list_queue}
use secoli_sced.Queue.Ends.{queue_create-Waits}
use secoli_sced.Queue.{queue_create}
use secoli_sced.Ring.Libvrb.{list_vrb}
use secoli_sced.Ring.Lines.{ring_at, is_line}
use secoli_sced.Sock2.Delivery.{Line, text_of, Finds}
use secoli_sced.Sock2.Receiving.{Received, AreChunks, all_lines, sock2_read_from_client-Received}
use secoli_sced.Sock2.Sending.{outcome, total, fate, sock2_send-outcome}
use secoli_sced.Sock2.{Written, wrote, write_again, read_again, sock2_send, sock2_read_from_client}

abbrev writes : List Written
writes = wrote 2 ∷ write_again ∷ wrote 1 ∷ []

sock2_send-outcome_example :
    sock2_send (some (codes "OK\n")) writes ≡ outcome (codes "OK\n") (total writes) (fate writes)
sock2_send-outcome_example = sock2_send-outcome (codes "OK\n") writes (omega arith) (omega arith)

junk : ℕ → Bytes
junk zero = []
junk (suc n) = 7 ∷ junk n

length-junk : (n : ℕ) → length (junk n) ≡ n
unfolding junk
length-junk zero = refl
length-junk (suc n) = ap suc (length-junk n)

abbrev memory : ℕ → Option Bytes
memory n = some (junk n)

memory-Finds : Finds memory
memory-Finds n = (junk n, refl, length-junk n)

-- The client is new: its messages are a queue that has just been made.
abbrev client : Client list_queue
client = record {
  sock = pos 5;
  destroy = false;
  messages = queue_create (list_queue Bytes) true;
  sessions = none;
  default_session = none;
  output_enc = none;
  output_handler = none;
  field_delimiter = none;
  timeout = pos 0;
  elapsed_time = pos 0;
  user_of = none;
}

abbrev chunks : List (List Line)
chunks = ((codes "WHO", 10) ∷ ([], 13) ∷ []) ∷ ((codes "QUIT", 10) ∷ []) ∷ []

chunks-AreChunks : AreChunks chunks
unfolding is_line text_of
chunks-AreChunks = (
  (refl, refl, (refl, refl, tt)),
  omega arith,
  omega arith,
  ((refl, refl, tt), omega arith, omega arith, tt),
)

sock2_read_from_client-Received_example :
    Received list_vrb list_queue read_again 8192 client (nonempty (all_lines chunks)) (
      sock2_read_from_client list_vrb list_queue 8192 memory
        (map text_of chunks)
        read_again
        (ring_at list_vrb ([], 8192))
        (some client))
unfolding all_lines text_of
sock2_read_from_client-Received_example =
    sock2_read_from_client-Received list_vrb list_queue memory 8192 read_again chunks ([], 8192)
      client [] memory-Finds (omega arith) (omega arith) refl chunks-AreChunks
      (queue_create-Waits (list_queue Bytes)) (omega arith)
