-- ===== src/World/Kept.antt =====
-- What almost no command changes: who the client is, its socket and the messages that wait, and
-- that the program runs. What has been sent stays sent.
use secoli_sced.Action.{unless_null, pure, fault, gets, modify, bind, ◌>>=◌}
use secoli_sced.Base.{
  Bytes, ◌≡◌, refl, ◌∙◌, sym, Bool, true, false, List, [], ◌∷◌, ◌++◌, Option, none, some,
  if◌then◌else◌,
}
use mathlib.Core.List.{append-nil, append_assoc}
use secoli_sced.Client.{Client}
use secoli_sced.Clib.{snprintf}
use secoli_sced.Search.{Glib}
use secoli_sced.Session.{Session}
use secoli_sced.World.{
  World, SessionArg, null, of_client, found, Do, sock_printf, print_all, session_of, set_session,
  is_null, sock_answer_ok, sock_answer_undefined, sock_answer_unavailable,
}
use secoli_sced.Xsqlite.{Sqlite}

module _ (S : Sqlite) (G : Glib) where
  pub data Kept (w w' : World G S) : Type 0 where
    kept :
        w'.client.user_of ≡ w.client.user_of
        → w'.client.sock ≡ w.client.sock
        → w'.client.messages ≡ w.client.messages
        → w'.has_exited ≡ w.has_exited
        → (lines : List Bytes) → w'.sent ≡ w.sent ++ lines
        → Kept w w'

  pub refl-Kept : (w : World G S) → Kept w w
  refl-Kept w = kept refl refl refl refl [] (sym (append-nil _))

  pub trans-Kept : (w w' w2 : World G S) → Kept w w' → Kept w' w2 → Kept w w2
  trans-Kept w w' w2 (kept u s m e ls p) (kept u' s' m' e' ls' p') =
      kept (u' ∙ u) (s' ∙ s) (m' ∙ m) (e' ∙ e) (ls ++ ls') (p' ∙ rw p (append_assoc w.sent ls ls'))

  -- Of the world that an action ends in, if it does not fault.
  abbrev pub Ends : {A : Type 0} → (A → World G S → Type 0) → Option (A × World G S) → Type 0
  Ends P none = Unit
  Ends P (some (a, w)) = P a w

  pub record IsKept {A : Type 0} (m : Do S G A) : Type 0 where
    pub at : (w : World G S) → Ends (λ a w'. Kept w w') (m w)

  module _ {A : Type 0} where
    pub pure-IsKept : (a : A) → IsKept (pure a)
    unfolding pure
    pure-IsKept a = record { at = refl-Kept }

    pub gets-IsKept : (f : World G S → A) → IsKept (gets f)
    unfolding gets
    gets-IsKept f = record { at = refl-Kept }

    pub if-IsKept : (b : Bool) (m k : Do S G A) → IsKept m → IsKept k → IsKept (if b then m else k)
    if-IsKept true m k p q = p
    if-IsKept false m k p q = q

    pub unless_null-IsKept :
        {B : Type 0} (o : Option B) (m : Do S G A) (f : B → Do S G A)
        → IsKept m
        → ((b : B) → IsKept (f b))
        → IsKept (unless_null o m f)
    unfolding unless_null
    unless_null-IsKept none m f p q = p
    unless_null-IsKept (some b) m f p q = q b

    pub fault-IsKept : IsKept (fault {A = A})
    unfolding fault
    fault-IsKept = record { at = λ w. tt }

  pub modify-IsKept :
      (f : World G S → World G S) → ((w : World G S) → Kept w (f w)) → IsKept (modify f)
  unfolding modify
  modify-IsKept f h = record { at = h }

  Ends-trans :
      {B : Type 0} (w w' : World G S)
      → Kept w w'
      → (r : Option (B × World G S)) → Ends (λ b w2. Kept w' w2) r
      → Ends (λ b w2. Kept w w2) r
  Ends-trans w w' p none h = tt
  Ends-trans w w' p (some (b, w2)) h = trans-Kept w w' w2 p h

  Ends-bind :
      {A B : Type 0} (w : World G S) (r : Option (A × World G S)) (f : A → Do S G B)
      → Ends (λ a w'. Kept w w') r
      → ((a : A) → IsKept (f a))
      → Ends (λ b w'. Kept w w') (bind r f)
  Ends-bind w none f p q = tt
  Ends-bind w (some (a, w')) f p q = Ends-trans w w' p (f a w') ((q a).at w')

  pub bind-IsKept :
      {A B : Type 0} (m : Do S G A) (f : A → Do S G B)
      → IsKept m
      → ((a : A) → IsKept (f a))
      → IsKept (m >>= f)
  unfolding ◌>>=◌
  bind-IsKept m f p q = record { at = λ w. Ends-bind w (m w) f (p.at w) q }

  pub ruleset rules =
      (pure-IsKept, gets-IsKept, fault-IsKept, if-IsKept, unless_null-IsKept, bind-IsKept)

  -- Changes of what is not listed in `Kept`.
  pub data Alike (c c' : Client G) : Type 0 where
    alike : c'.user_of ≡ c.user_of → c'.sock ≡ c.sock → c'.messages ≡ c.messages → Alike c c'

  pub set_client-Kept :
      (w : World G S) (c : Client G) → Alike w.client c → Kept w (record w { client = c })
  set_client-Kept w c (alike u s m) = kept u s m refl [] (sym (append-nil _))

  pub sock_printf-IsKept : (text : Bytes) → IsKept (sock_printf S G text)
  unfolding sock_printf
  sock_printf-IsKept text =
      modify-IsKept _ λ w. kept refl refl refl refl (snprintf 8192 text ∷ []) refl

  pub print_all-IsKept : (texts : List Bytes) → IsKept (print_all S G texts)
  unfolding print_all
  print_all-IsKept [] = search rules
  print_all-IsKept (text ∷ texts) =
      bind-IsKept _ _ (sock_printf-IsKept text) λ _. print_all-IsKept texts

  pub answer_ok-IsKept : IsKept (sock_answer_ok S G)
  unfolding sock_answer_ok
  answer_ok-IsKept = search (rules, sock_printf-IsKept)

  pub answer_undefined-IsKept : IsKept (sock_answer_undefined S G)
  unfolding sock_answer_undefined
  answer_undefined-IsKept = search (rules, sock_printf-IsKept)

  pub answer_unavailable-IsKept : IsKept (sock_answer_unavailable S G)
  unfolding sock_answer_unavailable
  answer_unavailable-IsKept = search (rules, sock_printf-IsKept)

  pub session_of-IsKept : (s : SessionArg G) → IsKept (session_of S G s)
  unfolding session_of
  session_of-IsKept null = search rules
  session_of-IsKept of_client = search rules
  session_of-IsKept (found p) = search rules

  pub set_session-IsKept :
      (s : SessionArg G) (t : Option (Session G)) → IsKept (set_session S G s t)
  unfolding set_session
  set_session-IsKept null t = search rules
  set_session-IsKept of_client t = modify-IsKept _ λ w. set_client-Kept w _ (alike refl refl refl)
  set_session-IsKept (found p) t = search rules

  pub is_null-IsKept : (s : SessionArg G) → IsKept (is_null S G s)
  unfolding is_null
  is_null-IsKept null = search rules
  is_null-IsKept of_client = search rules
  is_null-IsKept (found p) = search rules

  pub ruleset keeps = (
    rules, sock_printf-IsKept, print_all-IsKept, answer_ok-IsKept, answer_undefined-IsKept,
    answer_unavailable-IsKept, session_of-IsKept, set_session-IsKept, is_null-IsKept,
  )
