-- ===== src/User.antt =====
-- src/user.c: users and their passwords. The setting that holds a user's password is read by
-- libconfig: what `xconfig_get_string` gives for the section "Users" is a function of the name.
pub mod Password
mod Tests
use secoli_sced.Base.{
  Bytes, Bool, not, ◌||◌, Option, none, some, if◌then◌else◌, ltb, length, str_eq, ℤ, pos, minus_one,
}

-- The struct has no field that is read.
pub data User : Type 0 where
  user : User

abbrev pub is_empty : Bytes → Bool
is_empty s = not (ltb 0 (length s))

-- `fresh` is what xmalloc finds.
unfoldable pub user_authenticate :
    (Bytes → Option Bytes) → Option User → Option Bytes → Option Bytes → Option User
user_authenticate stored fresh none password = none
user_authenticate stored fresh (some name) none = none
user_authenticate stored fresh (some name) (some password) =
    if is_empty name || is_empty password then none else elim (stored name) [
      | none ↦ none
      | some stored_password ↦ if not (str_eq stored_password password) then none else fresh
    ]

-- `user_destroy` does nothing.
unfoldable pub user_deauthenticate : Option User → ℤ
user_deauthenticate none = minus_one
user_deauthenticate (some u) = pos 0
