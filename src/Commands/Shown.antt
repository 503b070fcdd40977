-- ===== src/Commands/Shown.antt =====
-- A SET and a SHOW behind it, as messages.
use secoli_sced.Action.{unless_null, ◌>>=◌, ◌>>◌}
use secoli_sced.Base.{
  Bytes, codes, ℕ, ◌≡◌, ap, ◌∙◌, ◌<◌, false, [], ◌∷◌, ◌++◌, some, pos, eqb_ℤ, arith, take, str_eq,
  take_all, length-append,
}
use mathlib.Core.List.{append_assoc}
use secoli_sced.Client.{sock_unset, client_get_socket}
use secoli_sced.Clib.Decimal.{length-decimal_small}
use secoli_sced.Clib.{decimal}
use secoli_sced.Commands.Dispatch.{run_plain, run_handler, execute}
use secoli_sced.Commands.Finding.{get_effective_session}
use secoli_sced.Commands.Handlers.{ok, set_handler, show_handler}
use secoli_sced.Commands.Slurp.{slurp_and_set_options}
use secoli_sced.Commands.{commands_get_handler}
use secoli_sced.Options.Access.{with_cod_state, set_cod_state, get_cod_state}
use secoli_sced.Options.Table.{option_set}
use secoli_sced.Sce.State.{sce_validate_cod_state-decimal}
use secoli_sced.Search.{Glib}
use secoli_sced.Session.{Session}
use secoli_sced.World.{World, Host, of_client, sock_printf, sock_answer_ok}
use secoli_sced.Xsqlite.{Sqlite}

module _ (S : Sqlite) (G : Glib) (H : Host G) where
  abbrev with_sent : World G S → Bytes → World G S
  with_sent w text = record w { sent = w.sent ++ text ∷ [] }

  set-sent :
      (w : World G S) (t : Session G) (n : ℕ) (text : Bytes)
      → eqb_ℤ w.client.sock sock_unset ≡ false
      → option_set S G H (codes "COD_STATE") text of_client 2 w
        ≡ some (pos 0, with_cod_state S G H w t (pos n))
      → execute S G H (codes "SET" ∷ codes "COD_STATE" ∷ text ∷ []) w
        ≡ some (tt {0}, with_sent (with_cod_state S G H w t (pos n)) (codes "OK\n"))
  unfolding execute ◌>>=◌ run_plain run_handler set_handler slurp_and_set_options ok sock_answer_ok
      sock_printf get_effective_session unless_null commands_get_handler str_eq client_get_socket
      with_cod_state
  set-sent w t n text s e = rw (e, s)

  show-sent :
      (w : World G S) (t : Session G) (n : ℕ)
      → execute S G H (codes "SHOW" ∷ codes "COD_STATE" ∷ []) (with_cod_state S G H w t (pos n))
        ≡ some (
          tt {0},
          with_sent
              (with_cod_state S G H w t (pos n))
              (take 8191 (take 3 (decimal n) ++ codes "\n")),
        )
  unfolding execute ◌>>=◌ run_plain run_handler show_handler sock_printf get_effective_session
      unless_null commands_get_handler str_eq
  show-sent w t n = rw (get_cod_state S G H w t n)

  line_short :
      (n : ℕ) → n < 1000 → take 8191 (take 3 (decimal n) ++ codes "\n") ≡ decimal n ++ codes "\n"
  line_short n h =
      let l = length-decimal_small n h in
      rw (take_all 3 (decimal n) l) (
        take_all 8191 (decimal n ++ codes "\n")
          (omega (arith, l, length-append (decimal n) (codes "\n"))))

  -- A client with a session that sends SET COD_STATE and a number from 1 to 999 is answered OK,
  -- and the SHOW COD_STATE that it then sends is answered by that number.
  pub set_handler-show_handler :
      (w : World G S) (t : Session G) (n : ℕ)
      → w.client.default_session ≡ some t
      → eqb_ℤ w.client.sock sock_unset ≡ false
      → 0 < n
      → n < 1000
      → (w' : World G S) × ((execute S G H (codes "SET" ∷ codes "COD_STATE" ∷ decimal n ∷ [])
              >> execute S G H (codes "SHOW" ∷ codes "COD_STATE" ∷ []))
            w
          ≡ some (tt, w'))
        × (w'.sent ≡ w.sent ++ codes "OK\n" ∷ (decimal n ++ codes "\n") ∷ [])
  unfolding ◌>>=◌ with_cod_state
  set_handler-show_handler w t n e s p l =
      let set =
        set_cod_state S G H w t n (decimal n) e
          (sce_validate_cod_state-decimal n p (omega arith)) in
      let w1 = with_sent (with_cod_state S G H w t (pos n)) (codes "OK\n") in
      (
        with_sent w1 (decimal n ++ codes "\n"),
        rw (set-sent w t n (decimal n) s set) (
            show-sent (with_sent w (codes "OK\n")) t n
            ∙ ap (λ x. some (tt {0}, with_sent w1 x)) (line_short n l)),
        append_assoc w.sent (codes "OK\n" ∷ []) ((decimal n ++ codes "\n") ∷ []),
      )
