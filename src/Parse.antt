-- ===== src/Parse.antt =====
-- src/parse.c: how `parse_message` cuts a message into arguments. A message is the list of the
-- bytes before its terminating NUL. `arg_space` is the memory that xmalloc returned, with what
-- happens to be in it; a write outside of it is a fault.
pub mod Tokens
pub mod Memory
pub mod Run
pub mod Cut
mod Tests
use secoli_sced.Base.{
  Bytes, ℕ, zero, suc, ◌+◌, Bool, true, false, ◌&&◌, ◌||◌, List, [], ◌∷◌, ◌++◌, map, Option, none,
  some, if◌then◌else◌, ltb, leb, ◌==◌, length, set, drop,
}

abbrev pub max_arguments : ℕ
max_arguments = 30

unfoldable pub is_whitespace : ℕ → Bool
is_whitespace x = x == b' ' || x == b'\t' || x == b'\r'

unfoldable pub is_final : ℕ → Bool
is_final x = x == b'\n' || x == 0

pub data State : Type 0 where
  initial whitespace argument final : State

-- The locals of `parse_message`. `args` are the offsets in `arg_space` of argv[0] to
-- argv[argc - 1], and `current` is that of argv[argc].
pub record Parser : Type 0 where
  pub state : State
  pub error : Bool
  pub argc : ℕ
  pub args : List ℕ
  pub current : ℕ
  pub argpos : ℕ
  pub arg_space : Bytes

-- `arg_space[i] = v`, `none` where `i` is out of range.
unfoldable pub store : Bytes → ℕ → ℕ → Option Bytes
store space i v = if ltb i (length space) then some (set space i v) else none

-- The end of an argument, by a final byte or by whitespace.
unfoldable pub close : State → Parser → Option Parser
close next p =
    if leb 29 p.argc
    then some (record p { error = true; state = next })
    else elim (store p.arg_space (p.current + p.argpos) 0) [
      | none ↦ none
      | some space ↦ some (record p {
        arg_space = space;
        args = p.args ++ p.current ∷ [];
        current = p.current + p.argpos + 1;
        argc = p.argc + 1;
        argpos = 0;
        state = next;
      })
    ]

-- case ST_ARGUMENT
unfoldable pub in_argument : Parser → ℕ → Option Parser
unfolding close
in_argument p ch =
    if is_final ch
    then close final p
    else if is_whitespace ch
    then close whitespace p
    else elim (store p.arg_space (p.current + p.argpos) ch) [
      | none ↦ none
      | some space ↦ some (record p { arg_space = space; argpos = p.argpos + 1 })
    ]

-- cases ST_INITIAL and ST_WHITESPACE, which fall through
unfoldable pub between : Parser → ℕ → Option Parser
unfolding in_argument
between p ch =
    if is_whitespace ch
    then some p
    else if is_final ch
    then some (record p { state = final })
    else in_argument (record p { state = argument }) ch

-- One round of the loop: the `switch` on the state.
unfoldable pub step_in : State → Parser → ℕ → Option Parser
unfolding between in_argument
step_in initial p ch = between p ch
step_in whitespace p ch = between p ch
step_in argument p ch = in_argument p ch
step_in final p ch = some p

abbrev pub is_final_state : State → Bool
is_final_state final = true
is_final_state _ = false

abbrev pub stops : Parser → Bool
stops p = is_final_state p.state || p.error

-- `while ((state != ST_FINAL) && !error)`; behind the bytes of the message comes its NUL, at
-- which the loop stops in every state.
unfoldable pub run : Parser → Bytes → Option Parser
unfolding step_in
run p [] = step_in p.state p 0
run p (ch ∷ str) = elim (step_in p.state p ch) [
  | none ↦ none
  | some p' ↦ if stops p' then some p' else run p' str
]

-- The C string that stands in memory at an offset.
unfoldable pub string_from : Bytes → Bytes
string_from [] = []
string_from (c ∷ cs) = if c == 0 then [] else c ∷ string_from cs

abbrev pub string_at : Bytes → ℕ → Bytes
string_at space i = string_from (drop i space)

-- What `parse_message` has when it looks for the command: argv[0] to argv[argc - 1] as strings,
-- or an error, answered by UNAVAILABLE.
pub data Arguments : Type 0 where
  fault too_many : Arguments
  arguments : List Bytes → Arguments

abbrev pub start : Bytes → Parser
start space = record {
  state = initial;
  error = false;
  argc = 0;
  args = [];
  current = 0;
  argpos = 0;
  arg_space = space;
}

-- Behind the loop: `argv[argc] = NULL`, or an error.
abbrev pub finish : Option Parser → Arguments
finish none = fault
finish (some p) =
    if p.error || leb max_arguments p.argc
    then too_many
    else arguments (map (string_at p.arg_space) p.args)

unfoldable pub parse_arguments : Bytes → Bytes → Arguments
unfolding run string_from
parse_arguments space str = finish (run (start space) str)
