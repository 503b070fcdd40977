-- ===== src/Commands/Answers/Always.antt =====
-- Every message is answered.
use secoli_sced.Action.{pure, unless_null, bind, ◌>>=◌}
use secoli_sced.Base.{
  Bytes, codes, ◌≡◌, ◌≢◌, ◌∙◌, ap, Bool-cases, Option-cases, ◌⊎◌, inl, inr, true, false, List, [],
  ◌∷◌, ◌++◌, Option, none, some, ℤ, pos, eqb_ℤ, if◌then◌else◌,
}
use secoli_sced.Client.{Client, sock_unset, client_get_socket}
use secoli_sced.Commands.Answers.Message.{run-IsAnswered}
use secoli_sced.Commands.Answers.Printed.{JsonPrints}
use secoli_sced.Commands.Answers.{Answered, speaks, fails, leaves, ends, Kept-Answered, same_socket}
use secoli_sced.Commands.Dispatch.{run_handler, execute, head}
use secoli_sced.Commands.Handlers.{undefined, unavailable}
use secoli_sced.Commands.Keeping.Plain.{unavailable-IsKept}
use secoli_sced.Commands.{list, commands_get_handler}
use secoli_sced.Search.{Glib}
use mathlib.Core.List.{append_assoc}
use secoli_sced.World.Kept.{Ends, Kept, kept, bind-IsKept, pure-IsKept}
use secoli_sced.World.{
  World, Host, null, sock_printf, sock_answer_unavailable, sock_answer_undefined,
}
use secoli_sced.Xsqlite.{Sqlite}

module _ (S : Sqlite) (G : Glib) (H : Host G) where
  abbrev Heard : World G S → World G S → Type 0
  Heard w w' =
      ((line : Bytes) × (more : List Bytes) × (w'.sent ≡ w.sent ++ line ∷ more))
      ⊎ ((w'.client.destroy ≡ true) ⊎ (w'.has_exited ≡ true))

  heard : (w w' : World G S) → Answered S G (pos 0) w w' → Heard w w'
  heard w w' (speaks l ls e) = inl (l, ls, e)
  heard w w' (fails e k) = cc e
  heard w w' (leaves z e) = inr (inl e)
  heard w w' (ends z e) = inr (inr e)

  -- The answers themselves, at a client with a socket.
  unavailable-sent :
      (w : World G S)
      → eqb_ℤ w.client.sock sock_unset ≡ false
      → (unavailable S G H >>= λ _. pure (tt {0})) w
        ≡ some (tt {0}, record w { sent = w.sent ++ codes "UNAVAILABLE\n" ∷ [] })
  unfolding ◌>>=◌ unavailable sock_answer_unavailable sock_printf client_get_socket
  unavailable-sent w s = rw s

  undefined-sent :
      (w : World G S)
      → eqb_ℤ w.client.sock sock_unset ≡ false
      → (undefined S G H >>= λ _. pure (tt {0})) w
        ≡ some (tt {0}, record w { sent = w.sent ++ codes "UNDEFINED\n" ∷ [] })
  unfolding ◌>>=◌ undefined sock_answer_undefined sock_printf client_get_socket
  undefined-sent w s = rw s

  after-Kept :
      (w w' : World G S)
      → (unavailable S G H >>= λ _. pure (tt {0})) w ≡ some (tt, w')
      → Kept S G w w'
  after-Kept w w' e = rw e at (
      (bind-IsKept S G _ (λ _. pure (tt {0})) (unavailable-IsKept S G H) λ _. pure-IsKept S G tt).at
        w)

  failed :
      (a : ℤ) (w w1 w' : World G S)
      → eqb_ℤ w.client.sock sock_unset ≡ false
      → eqb_ℤ a (pos 0) ≡ false
      → Answered S G a w w1
      → (unavailable S G H >>= λ _. pure (tt {0})) w1 ≡ some (tt, w')
      → Heard w w'
  failed a w w1 w' s f (speaks l ls e) u = more (after-Kept w1 w' u)
    where
      more : Kept S G w1 w' → Heard w w'
      more (kept p q r t ks x) = inl (l, ls ++ ks, x ∙ rw e (append_assoc w.sent (l ∷ ls) ks))
  failed a w w1 w' s f (fails e k) u =
      let s1 : eqb_ℤ w1.client.sock sock_unset ≡ false = rw (same_socket S G w w1 k) s in
      let said : w'.sent ≡ w1.sent ++ codes "UNAVAILABLE\n" ∷ [] = cc (u, unavailable-sent w1 s1) in
      heard w w' (Kept-Answered S G (pos 0) w w1 w' k (speaks (codes "UNAVAILABLE\n") [] said))
  failed a w w1 w' s f (leaves z e) u = cc (z, f)
  failed a w w1 w' s f (ends z e) u = cc (z, f)

  passed : (a : ℤ) (w w' : World G S) → eqb_ℤ a (pos 0) ≡ true → Answered S G a w w' → Heard w w'
  passed a w w' z (speaks l ls e) = inl (l, ls, e)
  passed a w w' z (fails e k) = cc (e, z)
  passed a w w' z (leaves y e) = inr (inl e)
  passed a w w' z (ends y e) = inr (inr e)

  finish :
      (w w' : World G S) (r : Option (ℤ × World G S))
      → eqb_ℤ w.client.sock sock_unset ≡ false
      → Ends S G (λ a w1. Answered S G a w w1) r
      → bind r (λ error.
        if eqb_ℤ error (pos 0) then pure (tt {0}) else (unavailable S G H >>= λ _. pure (tt {0})))
        ≡ some (tt, w')
      → Heard w w'
  unfolding pure
  finish w w' none s h e = cc e
  finish w w' (some (a, w1)) s h e = elim (Bool-cases (eqb_ℤ a (pos 0))) [
    | inl z ↦
        let same : some (tt {0}, w1) ≡ some (tt {0}, w') = rw z at e in
        passed a w w' z (let q : w1 ≡ w' = cc same in rw q at h)
    | inr f ↦ failed a w w1 w' s f h (rw f at e)
  ]

  -- A message from a client that has a socket, other than LIST, that is handled without a fault, is
  -- answered by at least one line, unless it makes the client leave or the program end. The printer
  -- of JSON must not say that it has found something where it prints nothing.
  pub execute-Heard :
      (argv : List Bytes) (w w' : World G S)
      → ((c : Client G) → JsonPrints S G H c)
      → commands_get_handler (head argv) ≢ some list
      → eqb_ℤ w.client.sock sock_unset ≡ false
      → execute S G H argv w ≡ some (tt, w')
      → ((line : Bytes) × (more : List Bytes) × (w'.sent ≡ w.sent ++ line ∷ more))
        ⊎ ((w'.client.destroy ≡ true) ⊎ (w'.has_exited ≡ true))
  unfolding execute unless_null ◌>>=◌
  execute-Heard argv w w' j n s e = elim (Option-cases (commands_get_handler (head argv))) [
    | inl m ↦
        let done = rw m at e in
        let said : w'.sent ≡ w.sent ++ codes "UNDEFINED\n" ∷ [] = cc (done, undefined-sent w s) in
        inl (codes "UNDEFINED\n", [], said)
    | inr (f, m) ↦
        finish w w' (run_handler S G H f argv null w) s
          ((run-IsAnswered S G H j f argv null (λ q. n (m ∙ ap some q))).at w s) (rw m at e)
  ]
