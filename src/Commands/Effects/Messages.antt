-- ===== src/Commands/Effects/Messages.antt =====
-- The effect of each message.
use secoli_sced.Action.{pure, modify, ◌>>=◌, ◌>>◌}
use secoli_sced.Base.{
  Bytes, codes, ◌≡◌, refl, inl, inr, Bool-cases, true, false, not, ◌&&◌, List, [], ◌∷◌, Option,
  none, some, ℤ, pos, arith, str_eq, str_eq_iff, if◌then◌else◌, eqb_ℤ, Option-cases,
}
use secoli_sced.Client.{Client, client_get_user}
use secoli_sced.Commands.Dispatch.{run_plain, within_handler, run_handler, execute, say_undefined}
use secoli_sced.Commands.Effects.{
  logs_in, logs_out, quits, exits, HasEffect, of_kept, then_kept, kept_then, if-HasEffect,
  unless_null-HasEffect, change_then,
}
use secoli_sced.Commands.Handlers.{
  ok, undefined, unavailable, authenticate_handler, deauthenticate_handler, quit_handler,
  shutdown_handler,
}
use secoli_sced.Commands.Keeping.Plain.{
  ok-IsKept, undefined-IsKept, unavailable-IsKept, session_named-IsKept, alter-IsKept,
  announce-IsKept, create-IsKept, destroy-IsKept, echo-IsKept, hello-IsKept, list-IsKept,
  negotiate-IsKept, set-IsKept, show-IsKept, who-IsKept,
}
use secoli_sced.Commands.Keeping.{dump-IsKept, fetch-IsKept, find-IsKept, get-IsKept}
use secoli_sced.Commands.Table.{is_embedded, commands_get_handler-keyword_of}
use secoli_sced.Commands.{
  Command, alter, announce, authenticate, create, deauthenticate, destroy, dump, echo, find, fetch,
  get, hello, list, negotiate, quit, set, show, shutdown, who, within, command_is_embeddable,
  commands_get_handler,
}
use secoli_sced.Options.{is_anonymous}
use secoli_sced.Search.{Glib}
use secoli_sced.User.{User, user_authenticate}
use secoli_sced.World.Kept.{IsKept, pure-IsKept, sock_printf-IsKept, if-IsKept, bind-IsKept}
use secoli_sced.World.{Host, SessionArg, null, set_client, client_of}
use secoli_sced.Xsqlite.{Sqlite}

stored_password :
    (stored : Bytes → Option Bytes) (m : Option User) (name password : Bytes) (u : User)
    → user_authenticate stored m (some name) (some password) ≡ some u
    → stored name ≡ some password
unfolding user_authenticate
stored_password stored m name password u = go (stored name) refl
  where
    go :
        (v : Option Bytes)
        → stored name ≡ v
        → user_authenticate stored m (some name) (some password) ≡ some u
        → stored name ≡ some password
    go none e h = ground arith
    go (some v) e h = ground (arith, str_eq_iff v password)

words :
    (a b c : Bytes)
    → not (str_eq a (codes "USER") && str_eq b (codes "WITH") && str_eq c (codes "PASSWORD"))
      ≡ false
    → (a ≡ codes "USER") × (b ≡ codes "WITH") × (c ≡ codes "PASSWORD")
words a b c e = ground (
  arith,
  str_eq_iff a (codes "USER"),
  str_eq_iff b (codes "WITH"),
  str_eq_iff c (codes "PASSWORD"),
)

has_user : {G : Glib} (c : Client G) → is_anonymous c ≡ false → (u : User) × (c.user_of ≡ some u)
unfolding client_get_user
has_user c e = elim (Option-cases c.user_of) [ inl n ↦ cc (rw n at e) | inr (u, n) ↦ (u, n) ]

module _ (S : Sqlite) (G : Glib) (H : Host G) where
  undefined-HasEffect : (argv : List Bytes) → HasEffect S G H argv (undefined S G H)
  undefined-HasEffect argv = of_kept S G H argv _ (undefined-IsKept S G H)

  unavailable-HasEffect : (argv : List Bytes) → HasEffect S G H argv (unavailable S G H)
  unavailable-HasEffect argv = of_kept S G H argv _ (unavailable-IsKept S G H)

  ruleset effects =
      (if-HasEffect, unless_null-HasEffect, undefined-HasEffect, unavailable-HasEffect)

  accept-HasEffect :
      (cmd a name b c password : Bytes)
      → not (str_eq a (codes "USER") && str_eq b (codes "WITH") && str_eq c (codes "PASSWORD"))
        ≡ false
      → (u : User)
      → user_authenticate H.passwords H.user_memory (some name) (some password) ≡ some u
      → HasEffect S G H
          (cmd ∷ a ∷ name ∷ b ∷ c ∷ password ∷ [])
          (client_of S G >>= λ c. set_client S G (record c { user_of = some u }) >> ok S G H)
  accept-HasEffect cmd a name b c password e u h =
      let (p, q, r) = words a b c e in
      change_then S G H _ (λ c. record c { user_of = some u }) (ok S G H)
        (λ w.
          logs_in cmd name password (cc (p, q, r))
            (stored_password H.passwords H.user_memory name password u h) refl refl)
        (ok-IsKept S G H)

  authenticate-HasEffect :
      (argv : List Bytes) (s : SessionArg G)
      → HasEffect S G H argv (authenticate_handler S G H argv s)
  unfolding authenticate_handler
  authenticate-HasEffect (cmd ∷ a ∷ name ∷ b ∷ c ∷ password ∷ []) s =
      search (effects, accept-HasEffect) depth 14
  authenticate-HasEffect _ s = search effects

  deauthenticate-HasEffect :
      (argv : List Bytes) (s : SessionArg G)
      → HasEffect S G H argv (deauthenticate_handler S G H argv s)
  unfolding deauthenticate_handler
  deauthenticate-HasEffect (cmd ∷ a ∷ []) s =
      let leave =
        change_then S G H (cmd ∷ a ∷ []) (λ c. record c { user_of = none }) (ok S G H)
          (λ w. logs_out refl refl refl) (ok-IsKept S G H) in
      search (effects, leave) depth 14
  deauthenticate-HasEffect _ s = search effects

  quit-HasEffect :
      (argv : List Bytes) (s : SessionArg G) → HasEffect S G H argv (quit_handler S G H argv s)
  unfolding quit_handler
  quit-HasEffect argv s =
      change_then S G H argv (λ c. record c { destroy = true }) (pure (pos 0))
        (λ w. quits refl refl refl) (pure-IsKept S G (pos 0))

  say_undefined-HasEffect : (argv : List Bytes) → HasEffect S G H argv (say_undefined S G H)
  say_undefined-HasEffect argv =
      of_kept S G H argv _
        (bind-IsKept S G _ _ (sock_printf-IsKept S G _) λ _. pure-IsKept S G (pos 0))

  exit-HasEffect :
      (argv : List Bytes)
      → HasEffect S G H argv (
          client_of S G >>= λ c.
          if is_anonymous c
          then unavailable S G H
          else (modify (λ w. record w { has_exited = true }) >> pure (pos 0)))
  unfolding ◌>>=◌
  exit-HasEffect argv = record {
    at = λ w. elim (Bool-cases (is_anonymous w.client)) [
      | inl e ↦ rw e ((unavailable-HasEffect argv).at w)
      | inr e ↦ rw e (let (u, k) = has_user w.client e in exits u k refl refl)
    ];
  }

  shutdown-HasEffect :
      (argv0 argv : List Bytes) (s : SessionArg G)
      → HasEffect S G H argv0 (shutdown_handler S G H argv s)
  unfolding shutdown_handler
  shutdown-HasEffect argv0 (cmd ∷ a ∷ []) s =
      search (effects, exit-HasEffect, say_undefined-HasEffect) depth 14
  shutdown-HasEffect argv0 _ s = say_undefined-HasEffect argv0

  -- What WITHIN runs.
  embedded-HasEffect :
      (argv0 : List Bytes) (f : Command) (argv : List Bytes) (s : SessionArg G)
      → is_embedded f ≡ true
      → HasEffect S G H argv0 (run_plain S G H f argv s)
  unfolding run_plain
  embedded-HasEffect argv0 dump argv s e = of_kept S G H _ _ (dump-IsKept S G H argv s)
  embedded-HasEffect argv0 echo argv s e = of_kept S G H _ _ (echo-IsKept S G H argv s)
  embedded-HasEffect argv0 find argv s e = of_kept S G H _ _ (find-IsKept S G H argv s)
  embedded-HasEffect argv0 fetch argv s e = of_kept S G H _ _ (fetch-IsKept S G H argv s)
  embedded-HasEffect argv0 get argv s e = of_kept S G H _ _ (get-IsKept S G H argv s)
  embedded-HasEffect argv0 hello argv s e = of_kept S G H _ _ (hello-IsKept S G H argv s)
  embedded-HasEffect argv0 set argv s e = of_kept S G H _ _ (set-IsKept S G H argv s)
  embedded-HasEffect argv0 show argv s e = of_kept S G H _ _ (show-IsKept S G H argv s)
  embedded-HasEffect argv0 shutdown argv s e = shutdown-HasEffect argv0 argv s
  embedded-HasEffect argv0 who argv s e = of_kept S G H _ _ (who-IsKept S G H argv s)
  embedded-HasEffect argv0 _ argv s e = cc e

  embeddable :
      (cmd : Bytes) (f : Command)
      → not (command_is_embeddable (some cmd)) ≡ false
      → commands_get_handler (some cmd) ≡ some f
      → is_embedded f ≡ true
  embeddable cmd f e h =
      let (_, same) = commands_get_handler-keyword_of cmd f in ground (arith, same h)

  run_embedded-HasEffect :
      (argv0 : List Bytes) (cmd : Bytes) (argv : List Bytes) (s : SessionArg G)
      → not (command_is_embeddable (some cmd)) ≡ false
      → (f : Command) → commands_get_handler (some cmd) ≡ some f
      → HasEffect S G H argv0 (run_plain S G H f argv s)
  run_embedded-HasEffect argv0 cmd argv s e f h =
      embedded-HasEffect argv0 f argv s (embeddable cmd f e h)

  within-HasEffect :
      (argv0 argv : List Bytes) (s : SessionArg G)
      → HasEffect S G H argv0 (within_handler S G H argv s)
  unfolding within_handler
  within-HasEffect argv0 (a ∷ b ∷ c ∷ cmd ∷ argv) s =
      search
        (effects, say_undefined-HasEffect, kept_then, session_named-IsKept, run_embedded-HasEffect)
        depth 20
  within-HasEffect argv0 _ s = say_undefined-HasEffect argv0

  run-HasEffect :
      (f : Command) (argv : List Bytes) (s : SessionArg G)
      → HasEffect S G H argv (run_handler S G H f argv s)
  unfolding run_handler run_plain
  run-HasEffect alter argv s = of_kept S G H _ _ (alter-IsKept S G H argv s)
  run-HasEffect announce argv s = of_kept S G H _ _ (announce-IsKept S G H argv s)
  run-HasEffect authenticate argv s = authenticate-HasEffect argv s
  run-HasEffect create argv s = of_kept S G H _ _ (create-IsKept S G H argv s)
  run-HasEffect deauthenticate argv s = deauthenticate-HasEffect argv s
  run-HasEffect destroy argv s = of_kept S G H _ _ (destroy-IsKept S G H argv s)
  run-HasEffect list argv s = of_kept S G H _ _ (list-IsKept S G H argv s)
  run-HasEffect negotiate argv s = of_kept S G H _ _ (negotiate-IsKept S G H argv s)
  run-HasEffect quit argv s = quit-HasEffect argv s
  run-HasEffect within argv s = within-HasEffect argv argv s
  run-HasEffect dump argv s = embedded-HasEffect argv dump argv s refl
  run-HasEffect echo argv s = embedded-HasEffect argv echo argv s refl
  run-HasEffect find argv s = embedded-HasEffect argv find argv s refl
  run-HasEffect fetch argv s = embedded-HasEffect argv fetch argv s refl
  run-HasEffect get argv s = embedded-HasEffect argv get argv s refl
  run-HasEffect hello argv s = embedded-HasEffect argv hello argv s refl
  run-HasEffect set argv s = embedded-HasEffect argv set argv s refl
  run-HasEffect show argv s = embedded-HasEffect argv show argv s refl
  run-HasEffect shutdown argv s = embedded-HasEffect argv shutdown argv s refl
  run-HasEffect who argv s = embedded-HasEffect argv who argv s refl

  report-IsKept :
      (error : ℤ)
      → IsKept S G (
          if eqb_ℤ error (pos 0) then pure (tt {0}) else (unavailable S G H >>= λ _. pure (tt {0})))
  report-IsKept error =
      if-IsKept S G _ _ _ (pure-IsKept S G tt)
        (bind-IsKept S G _ _ (unavailable-IsKept S G H) λ _. pure-IsKept S G tt)

  answered-HasEffect :
      (f : Command) (argv : List Bytes)
      → HasEffect S G H argv (
          run_handler S G H f argv null >>= λ error.
          if eqb_ℤ error (pos 0) then pure (tt {0}) else (unavailable S G H >>= λ _. pure (tt {0})))
  answered-HasEffect f argv = then_kept S G H argv _ _ (run-HasEffect f argv null) report-IsKept

  pub execute-HasEffect : (argv : List Bytes) → HasEffect S G H argv (execute S G H argv)
  unfolding execute
  execute-HasEffect argv =
      let unknown =
        then_kept S G H argv _ (λ _. pure (tt {0})) (undefined-HasEffect argv)
          λ _. pure-IsKept S G tt in
      search (effects, unknown, answered-HasEffect)
