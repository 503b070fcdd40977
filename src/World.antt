-- ===== src/World.antt =====
-- What the handling of a message works on: the client that has sent it, the static variables of the
-- program, and what has been sent. `Host` is what the rest of the world gives: memory, settings,
-- libraries.
pub mod Kept
use secoli_sced.Action.{Action, pure, fault, gets, modify, ◌>>=◌, ◌>>◌}
use secoli_sced.Base.{
  Bytes, codes, ℕ, Bool, true, false, List, [], ◌∷◌, ◌++◌, Option, none, some, if◌then◌else◌, ℤ,
  pos, minus_one, eqb_ℤ,
}
use secoli_sced.Client.{Client, client_get_socket, sock_unset}
use secoli_sced.Clib.{snprintf}
use secoli_sced.ConsularDistrict.{ConsularDistrict}
use secoli_sced.Encoder.{Iconv}
use secoli_sced.Sce.{Sce}
use secoli_sced.Search.{Search, Glib}
use secoli_sced.Session.List.{Pointed}
use secoli_sced.Session.{Session}
use secoli_sced.Topology.{Node, Topology}
use secoli_sced.User.{User}
use secoli_sced.Xsqlite.{Sqlite}

-- The numbers of /proc/self/statm that are printed.
pub record MemoryStatus : Type 0 where
  pub size : ℕ
  pub resident : ℕ
  pub shared : ℕ
  pub text_size : ℕ
  pub data_size : ℕ

module _ (G : Glib) where
  -- An `…_memory` is what xmalloc finds for that struct, `record_memory` for the records and
  -- the statement of a search; small texts always find memory. `address`
  -- is strdup's pointer as a number, `overflow` what C gives for a value that no int has,
  -- `format_rest` what snprintf makes of a conversion that C does not define, `uninitialised` what
  -- stands in a variable that is not set, and `print_json` what output_json.c prints by jansson.
  pub record Host : Type 0 where
    pub passwords : Bytes → Option Bytes
    pub user_memory : Option User
    pub session_memory : Option (Session G)
    pub search_memory : Option (Search G)
    pub queue_memory : Bool × Bool × Bool × Bool
    pub node_memory : Bool
    pub encoder_memory : Bool
    pub handler_memory : Bool
    pub address : Bytes → ℤ
    pub overflow : ℕ → ℤ
    pub format_rest : Bytes
    pub record_memory : ℕ → ℕ → Bool
    pub uninitialised : ℤ
    pub client_identity : Bytes
    pub server_identity : Bytes
    pub arena : ℤ
    pub sqlite_memory : ℤ
    pub memory_status : Option MemoryStatus
    pub iconv : Iconv
    pub print_json : Search G → ℤ × List Bytes × Search G

  -- `Session *s`: NULL, the client's default session, or what `sessions_find_by_id` returns.
  pub data SessionArg : Type 0 where
    null of_client : SessionArg
    found : Pointed G → SessionArg

  pub record World (S : Sqlite) : Type 0 where
    pub client : Client G
    pub sce : Sce S (G ConsularDistrict)
    pub topology : Topology (G Node)
    pub session_counter : ℕ
    pub sent : List Bytes
    pub has_exited : Bool

module _ (S : Sqlite) (G : Glib) where
  abbrev pub Do : Type 0 → Type 0
  Do = Action (World G S)

  abbrev pub client_of : Do (Client G)
  client_of = gets λ w. w.client

  abbrev pub set_client : Client G → Do (Unit {0})
  set_client c = modify λ w. record w { client = c }

  -- `sock_printf`, with its buffer of SOCK_MAX_BUFLEN bytes; whether the text can be sent is not
  -- looked at by any caller.
  unfoldable pub sock_printf : Bytes → Do (Unit {0})
  sock_printf text = modify λ w. record w { sent = w.sent ++ snprintf 8192 text ∷ [] }

  abbrev pub print_line : Bytes → Do (Unit {0})
  print_line text = sock_printf (text ++ codes "\n")

  -- Several calls of `sock_printf`.
  unfoldable pub print_all : List Bytes → Do (Unit {0})
  unfolding sock_printf
  print_all [] = pure tt
  print_all (text ∷ texts) = sock_printf text >> print_all texts

  abbrev pub answer : Bytes → Do (Unit {0})
  answer text = client_of >>= λ c.
      if eqb_ℤ (client_get_socket G (some c)) sock_unset then pure tt else print_line text

  unfoldable pub sock_answer_ok : Do (Unit {0})
  unfolding sock_printf
  sock_answer_ok = answer (codes "OK")

  unfoldable pub sock_answer_undefined : Do (Unit {0})
  unfolding sock_printf
  sock_answer_undefined = answer (codes "UNDEFINED")

  unfoldable pub sock_answer_unavailable : Do (Unit {0})
  unfolding sock_printf
  sock_answer_unavailable = answer (codes "UNAVAILABLE")

  -- The session that is pointed to. A result of `sessions_find_by_id` points to an unsigned int:
  -- to read more behind it is a fault.
  unfoldable pub session_of : SessionArg G → Do (Option (Session G))
  session_of null = pure none
  session_of of_client = gets λ w. w.client.default_session
  session_of (found p) = fault

  unfoldable pub set_session : SessionArg G → Option (Session G) → Do (Unit {0})
  set_session null s = fault
  set_session of_client s =
      modify λ w. record w { client = record w.client { default_session = s } }
  set_session (found p) s = fault

  -- `!s`
  unfoldable pub is_null : SessionArg G → Do Bool
  is_null null = pure true
  is_null of_client = gets λ w. elim w.client.default_session [ none ↦ true | some s ↦ false ]
  is_null (found p) = pure false
