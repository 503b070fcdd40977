-- ===== src/Commands/Tests.antt =====
-- A world, and the theorems at it.
use secoli_sced.Action.{unless_null, ◌>>=◌, ◌>>◌}
use secoli_sced.Base.{
  Bytes, ℕ, Option, codes, ◌≡◌, refl, ◌≤◌, ◌↔◌, ◌⊎◌, true, false, List, [], ◌∷◌, ◌++◌, none, some,
  pos, minus_one, arith, length, str_eq,
}
use secoli_sced.Clib.{decimal}
use secoli_sced.Client.{Client, client_get_socket, client_get_user}
use secoli_sced.Commands.Answers.Always.{execute-Heard}
use secoli_sced.Commands.Consumed.{slurp_and_set_options-bounded}
use secoli_sced.Commands.Dispatch.{execute, run_handler, run_plain}
use secoli_sced.Commands.Effects.Login.{execute-stored_password, execute-has_exited}
use secoli_sced.Commands.Handlers.{authenticate_handler, shutdown_handler, ok}
use secoli_sced.Commands.Shown.{set_handler-show_handler}
use secoli_sced.Commands.Slurp.{slurp_and_set_options}
use secoli_sced.Commands.Table.{commands_get_handler-keyword_of, keyword_of, is_embedded}
use secoli_sced.Commands.{find, command_is_embeddable, commands_get_handler}
use secoli_sced.Clib.{is_digit}
use secoli_sced.Options.Failing.{option_set-unchanged}
use secoli_sced.Options.Setters.{cod_state_option_setter}
use secoli_sced.Options.Table.{option_set}
use secoli_sced.Sce.{sce_validate_cod_state, all_digits}
use secoli_sced.Options.Access.{with_cod_state, set_cod_state}
use secoli_sced.Sce.State.{sce_validate_cod_state-decimal}
use secoli_sced.Queue.Glib.{list_queue}
use secoli_sced.Queue.Holds.{Waits, at_node, holds}
use secoli_sced.Commands.Inbox.{handle_messages}
use secoli_sced.Commands.Inbox.Emptied.{Result, handle_messages-Result}
use secoli_sced.Sce.Sample.{sqlite, loaded}
use secoli_sced.Session.{Session}
use secoli_sced.User.{User, user, user_authenticate}
use secoli_sced.Pool.{Pool, Visit, sock2_init}
use secoli_sced.Pool.Starting.{entries_from}
use secoli_sced.Serving.Rounds.{Step, checked, polled, parsed, steps, AreShared, sock2_init-steps}
use secoli_sced.World.{World, Host, of_client, sock_answer_ok, sock_printf, is_null}
use secoli_sced.Zipcode.{cod_state_unset}

abbrev session : Session list_queue
session = record {
  id = 0;
  search_of = none;
  cod_state = cod_state_unset;
  territorial_competence = false;
  destroy = pos 0;
  province = none;
}

abbrev client : Client list_queue
client = record {
  sock = pos 5;
  destroy = false;
  messages = none;
  sessions = none;
  default_session = some session;
  output_enc = none;
  output_handler = none;
  field_delimiter = none;
  timeout = pos 0;
  elapsed_time = pos 0;
  user_of = none;
}

abbrev host : Host list_queue
host = record {
  passwords = λ name. some (codes "secret");
  user_memory = some user;
  session_memory = some session;
  search_memory = none;
  queue_memory = (true, true, true, true);
  node_memory = true;
  encoder_memory = true;
  handler_memory = true;
  address = λ text. pos 1;
  overflow = λ n. minus_one;
  format_rest = [];
  record_memory = λ k n. true;
  uninitialised = pos 0;
  client_identity = codes "ID";
  server_identity = codes "ID";
  arena = pos 0;
  sqlite_memory = pos 0;
  memory_status = none;
  iconv = record { iconv_open = λ to from. pos 3; iconv = λ to from n text. text };
  print_json = λ q. (pos 0, [], q);
}

abbrev world : World list_queue sqlite
world = record {
  client = client;
  sce = loaded;
  topology = record { nodes = none; is_made = false; we_are_leader = false };
  session_counter = 0;
  sent = [];
  has_exited = false;
}

abbrev login : List Bytes
login =
    codes "AUTHENTICATE"
    ∷ codes "USER"
    ∷ codes "anna"
    ∷ codes "WITH"
    ∷ codes "PASSWORD"
    ∷ codes "secret"
    ∷ []

abbrev logged_in : World list_queue sqlite
logged_in = record world {
  client = record client { user_of = some user };
  sent = codes "OK\n" ∷ [];
}

login_run : execute sqlite list_queue host login world ≡ some (tt, logged_in)
unfolding execute ◌>>=◌ run_plain run_handler authenticate_handler user_authenticate ok
    sock_answer_ok sock_printf unless_null commands_get_handler str_eq client_get_socket
login_run = refl

abbrev ended : World list_queue sqlite
ended = record logged_in { has_exited = true }

shutdown_run :
    execute sqlite list_queue host (codes "SHUTDOWN" ∷ codes "IMMEDIATE" ∷ []) logged_in
    ≡ some (tt, ended)
unfolding execute ◌>>=◌ run_plain run_handler shutdown_handler unless_null commands_get_handler
    str_eq client_get_user
shutdown_run = refl

execute-stored_password_example :
    (cmd : Bytes) × (name : Bytes) × (password : Bytes) × (login
      ≡ cmd ∷ codes "USER" ∷ name ∷ codes "WITH" ∷ codes "PASSWORD" ∷ password ∷ [])
    × (host.passwords name ≡ some password)
execute-stored_password_example =
    execute-stored_password sqlite list_queue host login world logged_in user refl login_run refl

execute-has_exited_example : (u : User) × (logged_in.client.user_of ≡ some u)
execute-has_exited_example =
    execute-has_exited sqlite list_queue host (codes "SHUTDOWN" ∷ codes "IMMEDIATE" ∷ []) logged_in
      ended refl shutdown_run refl

commands_get_handler-keyword_of_example :
    ((commands_get_handler (some (codes "FIND")) ≡ some find) ↔ (codes "FIND" ≡ keyword_of find))
    × (commands_get_handler (some (codes "FIND")) ≡ some find
        → command_is_embeddable (some (codes "FIND")) ≡ is_embedded find)
commands_get_handler-keyword_of_example = commands_get_handler-keyword_of (codes "FIND") find

abbrev options : List Bytes
options = codes "COD_STATE" ∷ decimal 49 ∷ codes "AND" ∷ codes "TIMEOUT" ∷ []

slurped : World list_queue sqlite
slurped = record world {
  client = record client { default_session = some (record session { cod_state = pos 49 }) };
}

slurp_run :
    slurp_and_set_options sqlite list_queue host options of_client 2 world ≡ some (3, slurped)
unfolding slurp_and_set_options ◌>>=◌ str_eq with_cod_state slurped
slurp_run = rw (
    set_cod_state sqlite list_queue host world session 49 (decimal 49) refl
      (sce_validate_cod_state-decimal 49 (omega arith) (omega arith)))

slurp_and_set_options-bounded_example : 3 ≤ length options
slurp_and_set_options-bounded_example =
    slurp_and_set_options-bounded sqlite list_queue host options of_client 2 3 world slurped
      slurp_run

set_handler-show_handler_example :
    (w : World list_queue sqlite) × ((execute sqlite list_queue host
            (codes "SET" ∷ codes "COD_STATE" ∷ decimal 49 ∷ [])
          >> execute sqlite list_queue host (codes "SHOW" ∷ codes "COD_STATE" ∷ []))
        world
      ≡ some (tt, w))
    × (w.sent ≡ codes "OK\n" ∷ (decimal 49 ++ codes "\n") ∷ [])
set_handler-show_handler_example =
    set_handler-show_handler sqlite list_queue host world session 49 refl refl (omega arith)
      (omega arith)

execute-Heard_example :
    ((line : Bytes) × (more : List Bytes) × (logged_in.sent ≡ line ∷ more))
    ⊎ ((logged_in.client.destroy ≡ true) ⊎ (logged_in.has_exited ≡ true))
unfolding commands_get_handler str_eq
execute-Heard_example =
    execute-Heard sqlite list_queue host login world logged_in (λ c q h. ground arith) (λ e. cc e)
      refl login_run

refused :
    option_set sqlite list_queue host (codes "COD_STATE") (codes "abc") of_client 2 world
    ≡ some (minus_one, world)
unfolding option_set ◌>>=◌ cod_state_option_setter is_null unless_null str_eq sce_validate_cod_state
    all_digits is_digit
refused = refl

option_set-unchanged_example : world ≡ world
option_set-unchanged_example =
    option_set-unchanged sqlite list_queue host (codes "COD_STATE") (codes "abc") of_client 2 world
      world refused

-- Two messages, of which the first takes the client away.
abbrev leaving : World list_queue sqlite
leaving = record world {
  client = record client {
    messages =
        some (record { queue = some (codes "QUIT") ∷ some (codes "WHO") ∷ []; position = pos 0 });
  };
}

leaving-Waits : Waits (list_queue Bytes) (codes "QUIT" ∷ codes "WHO" ∷ []) leaving.client.messages
leaving-Waits = at_node 0 (holds refl refl (omega arith) (omega arith))

abbrev space : ℕ → Option Bytes
space n = some (0 ∷ 0 ∷ 0 ∷ 0 ∷ 0 ∷ [])

handle_messages-Result_example :
    Result sqlite list_queue host space
      (codes "QUIT" ∷ codes "WHO" ∷ [])
      (handle_messages sqlite list_queue host space 3 leaving)
handle_messages-Result_example =
    handle_messages-Result sqlite list_queue host space (codes "QUIT" ∷ codes "WHO" ∷ []) 3 leaving
      leaving-Waits (omega arith)

-- The client at the address 70 leaves, and the one at 80 is accepted.
abbrev no_pool : Pool (list_queue ℕ)
no_pool = record {
  open_sockets = none;
  free_sockets = none;
  clients_queue = some (record { queue = some 70 ∷ []; position = pos 0 });
  entries = λ i. record { socket = pos 0; client = none };
  active_fd_set = λ fd. false;
  listening_fd = pos 0;
}

abbrev arrival : Visit
arrival = record { is_set = true; new_sock = pos 5; created = some 80; err = pos 0 }

abbrev round : List (Step sqlite list_queue host)
round =
    polled (pos 1) (arrival ∷ []) (λ c. leaving.client)
    ∷ parsed (λ turn. space) 3
    ∷ checked (pos 250)
    ∷ []

sock2_init-steps_example :
    (q : Pool (list_queue ℕ)) × (sock2_init
        (list_queue ℕ)
        3
        (pos 3)
        (true, true, true, true)
        no_pool
      ≡ some (pos 0, q))
    × AreShared sqlite list_queue host (entries_from 0 3) (
        steps sqlite list_queue host round
          (some (record { world = leaving; pool = q; structs = λ c. leaving.client })))
sock2_init-steps_example =
    sock2_init-steps sqlite list_queue host 2 (pos 3) no_pool leaving (λ c. leaving.client) round
      refl (omega arith)
