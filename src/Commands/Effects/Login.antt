-- ===== src/Commands/Effects/Login.antt =====
-- Who may log in, and who may end the program.
use secoli_sced.Base.{Bytes, codes, ◌≡◌, true, false, List, [], ◌∷◌, none, some}
use secoli_sced.Commands.Dispatch.{execute}
use secoli_sced.Commands.Effects.Messages.{execute-HasEffect}
use secoli_sced.Commands.Effects.{Effect, keeps_all, logs_in, logs_out, quits, exits}
use secoli_sced.Search.{Glib}
use secoli_sced.User.{User}
use secoli_sced.World.Kept.{kept}
use secoli_sced.World.{World, Host}
use secoli_sced.Xsqlite.{Sqlite}

module _ (S : Sqlite) (G : Glib) (H : Host G) where
  effect_at :
      (argv : List Bytes) (w w' : World G S)
      → execute S G H argv w ≡ some (tt, w')
      → Effect S G H argv w w'
  effect_at argv w w' e = rw e at ((execute-HasEffect S G H argv).at w)

  -- A client without a user that has one when a message has been handled has sent a message of
  -- six arguments, of which the others than the first are USER, a name, WITH, PASSWORD and the
  -- password that is stored for the name.
  pub execute-stored_password :
      (argv : List Bytes) (w w' : World G S) (u : User)
      → w.client.user_of ≡ none
      → execute S G H argv w ≡ some (tt, w')
      → w'.client.user_of ≡ some u
      → (cmd : Bytes) × (name : Bytes) × (password : Bytes) × (argv
          ≡ cmd ∷ codes "USER" ∷ name ∷ codes "WITH" ∷ codes "PASSWORD" ∷ password ∷ [])
        × (H.passwords name ≡ some password)
  execute-stored_password argv w w' u anonymous e known = go (effect_at argv w w' e)
    where
      go :
          Effect S G H argv w w'
          → (cmd : Bytes) × (name : Bytes) × (password : Bytes) × (argv
              ≡ cmd ∷ codes "USER" ∷ name ∷ codes "WITH" ∷ codes "PASSWORD" ∷ password ∷ [])
            × (H.passwords name ≡ some password)
      go (keeps_all (kept same so m x ls t)) = cc (same, known, anonymous)
      go (logs_in cmd name password p q x i) = (cmd, name, password, p, q)
      go (logs_out p x i) = cc (p, known)
      go (quits same x i) = cc (same, known, anonymous)
      go (exits v p same i) = cc (p, anonymous)

  -- A message that is handled without a fault makes a program that runs call `exit` only when the
  -- client that has sent it has a user.
  pub execute-has_exited :
      (argv : List Bytes) (w w' : World G S)
      → w.has_exited ≡ false
      → execute S G H argv w ≡ some (tt, w')
      → w'.has_exited ≡ true
      → (u : User) × (w.client.user_of ≡ some u)
  execute-has_exited argv w w' runs e ended = go (effect_at argv w w' e)
    where
      go : Effect S G H argv w w' → (u : User) × (w.client.user_of ≡ some u)
      go (keeps_all (kept same so m x ls t)) = cc (x, runs, ended)
      go (logs_in cmd name password p q x i) = cc (x, runs, ended)
      go (logs_out p x i) = cc (x, runs, ended)
      go (quits same x i) = cc (x, runs, ended)
      go (exits v p same i) = (v, p)
