-- ===== src/Commands/Dispatch.antt =====
-- src/commands.c and src/parse.c: which handler a message runs, and what is answered when none
-- does.
use secoli_sced.Action.{unless_null, pure, fault, ◌>>=◌, ◌>>◌}
use secoli_sced.Base.{
  Bytes, codes, not, List, [], ◌∷◌, Option, none, some, if◌then◌else◌, str_eq, ℤ, pos, eqb_ℤ,
}
use secoli_sced.Commands.Finding.{dump_handler, fetch_handler, find_handler, get_handler}
use secoli_sced.Commands.Handlers.{
  alter_handler, announce_handler, authenticate_handler, create_handler, deauthenticate_handler,
  destroy_handler, echo_handler, hello_handler, list_handler, negotiate_handler, quit_handler,
  set_handler, show_handler, shutdown_handler, who_handler, session_named, undefined, unavailable,
}
use secoli_sced.Commands.{
  Command, alter, announce, authenticate, create, deauthenticate, destroy, dump, echo, find, fetch,
  get, hello, list, negotiate, quit, set, show, shutdown, who, within, command_is_embeddable,
  commands_get_handler,
}
use secoli_sced.Parse.{too_many, arguments, parse_arguments}
use secoli_sced.Search.{Glib}
use secoli_sced.World.{Host, SessionArg, null, found, Do, print_line}
use secoli_sced.Xsqlite.{Sqlite}

abbrev pub head : List Bytes → Option Bytes
head [] = none
head (a ∷ argv) = some a

module _ (S : Sqlite) (G : Glib) (H : Host G) where
  -- The function in a table entry, but for that of WITHIN.
  unfoldable pub run_plain : Command → List Bytes → SessionArg G → Do S G ℤ
  unfolding undefined
  run_plain alter = alter_handler S G H
  run_plain announce = announce_handler S G H
  run_plain authenticate = authenticate_handler S G H
  run_plain create = create_handler S G H
  run_plain deauthenticate = deauthenticate_handler S G H
  run_plain destroy = destroy_handler S G H
  run_plain dump = dump_handler S G H
  run_plain echo = echo_handler S G H
  run_plain find = find_handler S G H
  run_plain fetch = fetch_handler S G H
  run_plain get = get_handler S G H
  run_plain hello = hello_handler S G H
  run_plain list = list_handler S G H
  run_plain negotiate = negotiate_handler S G H
  run_plain quit = quit_handler S G H
  run_plain set = set_handler S G H
  run_plain show = show_handler S G H
  run_plain shutdown = shutdown_handler S G H
  run_plain who = who_handler S G H
  run_plain within = λ argv s. undefined S G H

  abbrev pub say_undefined : Do S G ℤ
  say_undefined = print_line S G (codes "UNDEFINED") >> pure (pos 0)

  -- An embeddable command has a handler, and WITHIN is not embeddable.
  unfoldable pub within_handler : List Bytes → SessionArg G → Do S G ℤ
  unfolding session_named command_is_embeddable commands_get_handler run_plain
  within_handler (command ∷ session_word ∷ id ∷ cmd ∷ argv) s =
      if not (str_eq session_word (codes "SESSION"))
      then say_undefined
      else (session_named S G H id >>= λ session. unless_null session (say_undefined) (λ p.
          if not (command_is_embeddable (some cmd))
          then say_undefined
          else unless_null (commands_get_handler (some cmd)) (say_undefined)
              (λ function. run_plain function (cmd ∷ argv) (found p))))
  within_handler _ s = say_undefined

  unfoldable pub run_handler : Command → List Bytes → SessionArg G → Do S G ℤ
  unfolding run_plain within_handler
  run_handler within = within_handler
  run_handler command = run_plain command

  -- What `parse_message` does with the arguments.
  unfoldable pub execute : List Bytes → Do S G (Unit {0})
  unfolding commands_get_handler run_handler undefined unavailable
  execute argv =
      unless_null (commands_get_handler (head argv)) (undefined S G H >>= λ _. pure tt) (λ function.
        run_handler function argv null >>= λ error.
        if eqb_ℤ error (pos 0) then pure tt else (unavailable S G H >>= λ _. pure tt))

  -- The memory is what xmalloc returns for the arguments, with what is in it.
  unfoldable pub parse_message : Option Bytes → Bytes → Do S G (Unit {0})
  unfolding parse_arguments execute unavailable
  parse_message none str = unavailable S G H >>= λ _. pure tt
  parse_message (some space) str = elim (parse_arguments space str) [
    | too_many ↦ unavailable S G H >>= λ _. pure tt
    | arguments argv ↦ execute argv
    | _ ↦ fault
  ]
