-- ===== src/Commands.antt =====
-- src/commands.c: the table of the commands. `argc` and `argv` are one list of arguments, and a
-- handler returns 0, or -1 for an error that `parse_message` answers.
pub mod Slurp
pub mod Finding
pub mod Handlers
pub mod Dispatch
pub mod Keeping
pub mod Effects
pub mod Consumed
pub mod Shown
pub mod Answers
pub mod Inbox
mod Tests
pub mod Table
use secoli_sced.Base.{
  Bytes, codes, ℕ, zero, suc, Bool, true, false, List, [], ◌∷◌, Option, none, some, if◌then◌else◌,
  get_elem?, str_eq,
}

-- Which function stands in an entry.
pub data Command : Type 0 where
  alter announce authenticate create deauthenticate destroy dump echo find fetch : Command
  get hello list negotiate quit set show shutdown who within : Command

pub record CommandHandler : Type 0 where
  pub keyword : Bytes
  pub function : Command
  pub is_embeddable : Bool

abbrev entry : Bytes → Command → Bool → CommandHandler
entry keyword function is_embeddable = record {
  keyword = keyword;
  function = function;
  is_embeddable = is_embeddable;
}

unfoldable pub commands : List CommandHandler
commands =
    entry (codes "ALTER") alter false
    ∷ entry (codes "ANNOUNCE") announce false
    ∷ entry (codes "AUTHENTICATE") authenticate false
    ∷ entry (codes "CREATE") create false
    ∷ entry (codes "DEAUTHENTICATE") deauthenticate false
    ∷ entry (codes "DESTROY") destroy false
    ∷ entry (codes "DUMP") dump true
    ∷ entry (codes "ECHO") echo true
    ∷ entry (codes "FIND") find true
    ∷ entry (codes "FETCH") fetch true
    ∷ entry (codes "GET") get true
    ∷ entry (codes "HELLO") hello true
    ∷ entry (codes "LIST") list false
    ∷ entry (codes "NEGOTIATE") negotiate false
    ∷ entry (codes "QUIT") quit false
    ∷ entry (codes "SET") set true
    ∷ entry (codes "SHOW") show true
    ∷ entry (codes "SHUTDOWN") shutdown true
    ∷ entry (codes "WHO") who true
    ∷ entry (codes "WITHIN") within false
    ∷ []

-- The loop over the table, from its entry `i` on.
unfoldable pub handler_index_from : Bytes → ℕ → List CommandHandler → Option ℕ
handler_index_from cmd i [] = none
handler_index_from cmd i (h ∷ hs) =
    if str_eq cmd h.keyword then some i else handler_index_from cmd (suc i) hs

-- `none` is -1; the argument is NULL where a message has no arguments.
unfoldable pub find_command_handler : Option Bytes → Option ℕ
unfolding handler_index_from commands
find_command_handler none = none
find_command_handler (some cmd) = handler_index_from cmd 0 commands

-- `commands[i]`
abbrev entry_at : Option ℕ → Option CommandHandler
entry_at none = none
entry_at (some i) = get_elem? commands i

unfoldable pub command_is_embeddable : Option Bytes → Bool
unfolding find_command_handler commands
command_is_embeddable cmd = elim (entry_at (find_command_handler cmd)) [
  | none ↦ false
  | some h ↦ h.is_embeddable
]

unfoldable pub commands_get_handler : Option Bytes → Option Command
unfolding find_command_handler commands
commands_get_handler cmd = elim (entry_at (find_command_handler cmd)) [
  | none ↦ none
  | some h ↦ some h.function
]
