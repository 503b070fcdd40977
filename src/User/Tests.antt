-- ===== src/User/Tests.antt =====
-- One user, and the theorem at it.
use secoli_sced.Base.{Bytes, codes, ◌≡◌, ◌↔◌, false, Option, none, some, if◌then◌else◌, str_eq}
use secoli_sced.User.{user, user_authenticate, is_empty}
use secoli_sced.User.Password.{user_authenticate-stored}

abbrev passwords : Bytes → Option Bytes
passwords name = if str_eq name (codes "ada") then some (codes "secret") else none

user_authenticate-stored_example :
    (user_authenticate passwords (some user) (some (codes "ada")) (some (codes "secret"))
      ≡ some user)
    ↔ ((is_empty (codes "ada") ≡ false)
        × (is_empty (codes "secret") ≡ false)
        × (passwords (codes "ada") ≡ some (codes "secret")))
user_authenticate-stored_example =
    user_authenticate-stored passwords user (codes "ada") (codes "secret")
