-- ===== src/User/Password.antt =====
-- Who is authenticated.
use secoli_sced.Base.{Bytes, ◌≡◌, ◌↔◌, refl, false, Option, none, some, arith, str_eq_iff}
use secoli_sced.User.{User, user_authenticate, is_empty}

-- With memory found, `user_authenticate` accepts a name and a password exactly when neither is
-- empty and the password is the one that is stored for the name.
pub user_authenticate-stored :
    (stored : Bytes → Option Bytes) (u : User) (name password : Bytes)
    → (user_authenticate stored (some u) (some name) (some password) ≡ some u)
      ↔ ((is_empty name ≡ false) × (is_empty password ≡ false) × (stored name ≡ some password))
unfolding user_authenticate
user_authenticate-stored stored u name password = go (stored name) refl
  where
    go :
        (v : Option Bytes)
        → stored name ≡ v
        → (user_authenticate stored (some u) (some name) (some password) ≡ some u)
          ↔ ((is_empty name ≡ false) × (is_empty password ≡ false) × (stored name ≡ some password))
    go none e = ground arith
    go (some v) e = ground (arith, str_eq_iff v password)
