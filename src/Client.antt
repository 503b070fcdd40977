-- ===== src/Client.antt =====
-- src/client.c: a client's messages, sessions, timeout, user, encoder and output handler. Its uuid
-- and its input encoder, which nothing reads, are not in the record.
pub mod Timeouts
pub mod Creation
pub mod Messages
mod Tests
use secoli_sced.Base.{
  Bytes, ℕ, suc, ◌+◌, ◌-◌, ◌*◌, ◌/◌, ◌^◌, Bool, true, false, not, ◌&&◌, ◌||◌, Option, none, some,
  if◌then◌else◌, ltb, length, int_limit, ℤ, pos, negsuc, minus_one, ◌+ℤ◌, ◌-ℤ◌, ltb_ℤ, eqb_ℤ,
  is_neg, getter, update,
}
use secoli_sced.Clib.{int_of}
use secoli_sced.Encoder.{Encoder, Iconv, encoder_run}
use secoli_sced.Output.{OutputHandler}
use secoli_sced.Queue.{Queue, queue_push, queue_dequeue}
use secoli_sced.Search.{Glib}
use secoli_sced.Session.List.{Pointed}
use secoli_sced.Session.{Session}
use secoli_sced.User.{User}

-- SOCK_UNSET
abbrev pub sock_unset : ℤ
sock_unset = minus_one

pub record Client (G : Glib) : Type 0 where
  pub sock : ℤ
  pub destroy : Bool
  pub messages : Option (Queue (G Bytes))
  pub sessions : Option (Queue (G (Pointed G)))
  pub default_session : Option (Session G)
  pub output_enc : Option Encoder
  pub output_handler : Option OutputHandler
  pub field_delimiter : Option Bytes
  pub timeout : ℤ
  pub elapsed_time : ℤ
  pub user_of : Option User

-- Microseconds in a second.
abbrev pub million : ℕ
million = 10 ^ 6

-- A number of seconds as an int of microseconds. An int is less than `LONG_MAX / 1e6`. LONG_MAX is
-- cut to -1, and `overflow` is what C gives for a value that no int has.
unfoldable pub microseconds : (ℕ → ℤ) → ℤ → ℤ
microseconds overflow (negsuc n) = minus_one
microseconds overflow (pos n) =
    if ltb (n * million) int_limit then pos (n * million) else overflow (n * million)

module _ (G : Glib) where
  abbrev pub ClientPointer : Type 0
  ClientPointer = Option (Client G)

  abbrev pub Changed : Type 0
  Changed = ℤ × Option (Client G)

  unfoldable pub client_set_destroy : ClientPointer → Bool → ClientPointer
  client_set_destroy none destroy = none
  client_set_destroy (some c) destroy = some (record c { destroy = destroy })

  unfoldable pub client_get_destroy : ClientPointer → Bool
  client_get_destroy = getter (λ c. c.destroy) false

  -- `c->timeout > 0 && c->elapsed_time >= c->timeout`
  abbrev pub is_over : Client G → Bool
  is_over c = ltb_ℤ (pos 0) c.timeout && not (ltb_ℤ c.elapsed_time c.timeout)

  -- `t_diff` is an int, to which the long that the main loop gives is cut; `elapsed_time` is a long.
  unfoldable pub client_check_timeout : ClientPointer → ℤ → Changed
  unfolding client_set_destroy
  client_check_timeout none t_diff = (minus_one, none)
  client_check_timeout (some c) t_diff =
      let c' = record c { elapsed_time = c.elapsed_time +ℤ int_of t_diff } in
      (pos 0, if is_over c' then client_set_destroy (some c') true else some c')

  unfoldable pub client_reset_elapsed_time : ClientPointer → Changed
  client_reset_elapsed_time none = (minus_one, none)
  client_reset_elapsed_time (some c) = (pos 0, some (record c { elapsed_time = pos 0 }))

  -- The status of `queue_push` is not looked at.
  unfoldable pub client_add_message : ClientPointer → Option Bytes → Changed
  client_add_message none message = (minus_one, none)
  client_add_message (some c) none = (minus_one, some c)
  client_add_message (some c) (some message) = (
    pos 0,
    some (
        if ltb 0 (length message)
        then record c { messages = (queue_push (G Bytes) c.messages (some message)).1 }
        else c),
  )

  unfoldable pub client_get_message : ClientPointer → Option Bytes × ClientPointer
  client_get_message none = (none, none)
  client_get_message (some c) =
      let (str, q) = queue_dequeue (G Bytes) c.messages in (str, some (record c { messages = q }))

  unfoldable pub client_get_default_session : ClientPointer → Option (Session G)
  client_get_default_session = getter (λ c. c.default_session) none

  unfoldable pub client_get_field_delimiter : ClientPointer → Option Bytes
  client_get_field_delimiter = getter (λ c. c.field_delimiter) none

  unfoldable pub client_set_field_delimiter : ClientPointer → Option Bytes → Changed
  client_set_field_delimiter = update λ c delimiter. record c { field_delimiter = delimiter }

  unfoldable pub client_get_sessions : ClientPointer → Option (Queue (G (Pointed G)))
  client_get_sessions = getter (λ c. c.sessions) none

  unfoldable pub client_get_session : ClientPointer → Option (Pointed G) × ClientPointer
  client_get_session none = (none, none)
  client_get_session (some c) =
      let (s, q) = queue_dequeue (G (Pointed G)) c.sessions in (s, some (record c { sessions = q }))

  unfoldable pub client_add_session : ClientPointer → Option (Pointed G) → Changed
  client_add_session none s = (minus_one, none)
  client_add_session (some c) none = (minus_one, some c)
  client_add_session (some c) (some s) =
      let (status, q) = queue_push (G (Pointed G)) c.sessions (some s) in
      (status, some (record c { sessions = q }))

  unfoldable pub client_get_socket : ClientPointer → ℤ
  client_get_socket = getter (λ c. c.sock) sock_unset

  unfoldable pub client_set_socket : ClientPointer → ℤ → Changed
  client_set_socket = update λ c sock. record c { sock = sock }

  unfoldable pub client_get_user : ClientPointer → Option User
  client_get_user = getter (λ c. c.user_of) none

  unfoldable pub client_set_user : ClientPointer → Option User → Changed
  client_set_user = update λ c u. record c { user_of = u }

  -- The quotient, cut towards 0. A timeout is an int, of which a double is exact.
  abbrev seconds : ℤ → ℤ
  seconds (pos n) = pos (n / million)
  seconds (negsuc n) = pos 0 -ℤ pos (suc n / million)

  unfoldable pub client_get_timeout : ClientPointer → ℤ
  client_get_timeout none = pos 0
  client_get_timeout (some c) = seconds c.timeout

  abbrev may_set : Client G → ℤ → Bool
  may_set c t = eqb_ℤ c.timeout (pos 0) || ltb_ℤ (pos 0) t && ltb_ℤ t c.timeout

  unfoldable pub client_set_timeout : (ℕ → ℤ) → ClientPointer → ℤ → Changed
  unfolding microseconds client_get_user
  client_set_timeout overflow none timeout = (minus_one, none)
  client_set_timeout overflow (some c) timeout =
      let timeout2 = microseconds overflow timeout in
      let set = some (record c { timeout = timeout2 }) in
      (
        pos 0,
        elim (client_get_user (some c)) [
          | some u ↦ set
          | none ↦ if may_set c timeout2 then set else some c
        ],
      )

  unfoldable pub client_get_output_enc : ClientPointer → Option Encoder
  client_get_output_enc = getter (λ c. c.output_enc) none

  unfoldable pub client_set_output_enc : ClientPointer → Option Encoder → Changed
  client_set_output_enc none enc = (minus_one, none)
  client_set_output_enc (some c) none = (minus_one, some c)
  client_set_output_enc (some c) (some enc) = (pos 0, some (record c { output_enc = some enc }))

  unfoldable pub client_run_output_enc : Iconv → ClientPointer → Option Bytes → Option Bytes
  client_run_output_enc I none string = none
  client_run_output_enc I (some c) none = none
  client_run_output_enc I (some c) (some string) = elim c.output_enc [
    | none ↦ none
    | some enc ↦ encoder_run I enc (some string)
  ]

  unfoldable pub client_get_output_handler : ClientPointer → Option OutputHandler
  client_get_output_handler = getter (λ c. c.output_handler) none

  unfoldable pub client_set_output_handler : ClientPointer → Option OutputHandler → Changed
  client_set_output_handler none oh = (minus_one, none)
  client_set_output_handler (some c) none = (minus_one, some c)
  client_set_output_handler (some c) (some oh) =
      (pos 0, some (record c { output_handler = some oh }))
