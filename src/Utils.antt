-- ===== src/Utils.antt =====
-- src/utils.c: strings of arguments and options.
pub mod Strings
pub mod Flatten
mod Tests
use secoli_sced.Base.{
  Bytes, codes, ℕ, Bool, true, false, ◌||◌, List, [], ◌∷◌, ◌++◌, Option, none, some, if◌then◌else◌,
  ◌==◌, str_eq,
}

-- The loop over `rem`: is the byte one of them?
unfoldable pub is_in : ℕ → Bytes → Bool
is_in c [] = false
is_in c (r ∷ rem) = c == r || is_in c rem

-- The loop of `flatten_argv`: each argument and a blank behind it.
unfoldable pub flatten : List Bytes → Bytes
flatten [] = []
flatten (a ∷ argv) = a ++ (b' ' ∷ flatten argv)

abbrev pub drop_last : Bytes → Bytes
drop_last [] = []
drop_last (c ∷ []) = []
drop_last (c ∷ d ∷ s) = c ∷ drop_last (d ∷ s)

-- The NUL goes over the last blank: `none` where there is none, for it then goes to `NULL[-1]`.
unfoldable pub flatten_argv : List Bytes → Option Bytes
unfolding flatten
flatten_argv [] = none
flatten_argv (a ∷ argv) = some (drop_last (flatten (a ∷ argv)))

-- `strtok_r`: the bytes of `delim` in front are skipped, and those up to the next are the token.
unfoldable pub skip_delim : Bytes → Bytes → Bytes
unfolding is_in
skip_delim delim [] = []
skip_delim delim (c ∷ s) = if is_in c delim then skip_delim delim s else c ∷ s

unfoldable pub up_to_delim : Bytes → Bytes → Bytes
unfolding is_in
up_to_delim delim [] = []
up_to_delim delim (c ∷ s) = if is_in c delim then [] else c ∷ up_to_delim delim s

abbrev pub if_any : Bytes → Option Bytes
if_any [] = none
if_any (c ∷ s) = some (c ∷ s)

unfoldable pub get_first_token : Bytes → Bytes → Option Bytes
unfolding skip_delim up_to_delim
get_first_token str delim = if_any (up_to_delim delim (skip_delim delim str))

-- The loop of `remove_chars`.
unfoldable pub without : Bytes → Bytes → Bytes
unfolding is_in
without [] rem = []
without (c ∷ str) rem = if is_in c rem then without str rem else c ∷ without str rem

-- Nothing left is NULL.
unfoldable pub remove_chars : Option Bytes → Bytes → Option Bytes
unfolding without
remove_chars none rem = none
remove_chars (some str) rem = if_any (without str rem)

-- The loop of `remove_spaces`.
unfoldable pub blanks : Bytes → Bytes
unfolding is_in
blanks [] = []
blanks (c ∷ str) = (if is_in c (codes " \t") then b' ' else c) ∷ blanks str

unfoldable pub remove_spaces : Option Bytes → Option Bytes
unfolding blanks
remove_spaces none = none
remove_spaces (some str) = if_any (blanks str)

unfoldable pub boolean_to_string : Bool → Bytes
boolean_to_string value = if value then codes "ENABLED" else codes "DISABLED"

unfoldable pub string_to_boolean : Bytes → Bool
string_to_boolean value = str_eq value (codes "ENABLED")
