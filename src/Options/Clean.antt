-- ===== src/Options/Clean.antt =====
-- Actions that change nothing where they fail: the rules.
use secoli_sced.Action.{unless_null, pure, fault, gets, bind, ◌>>=◌, ◌>>◌}
use secoli_sced.Base.{
  ℕ, ◌≡◌, refl, ap, Bool, true, false, Option, none, some, if◌then◌else◌, ℤ, minus_one, is_neg,
}
use secoli_sced.Client.{Client}
use secoli_sced.Options.Setters.{store_client, write_scope}
use secoli_sced.Options.{meets, scope_session, scope_search}
use secoli_sced.Search.{Search, Glib}
use secoli_sced.Session.{Session, session_get_search}
use secoli_sced.World.Kept.{Ends}
use secoli_sced.World.{
  World, Host, SessionArg, null, of_client, found, Do, session_of, set_session, is_null,
}
use secoli_sced.Xsqlite.{Sqlite}

module _ (S : Sqlite) (G : Glib) where
  -- It changes nothing.
  pub record IsReader {A : Type 0} (m : Do S G A) : Type 0 where
    pub at : (w : World G S) → Ends S G (λ a w'. w' ≡ w) (m w)

  -- It changes nothing where it returns a negative status.
  pub record FailsClean (m : Do S G ℤ) : Type 0 where
    pub at : (w : World G S) → Ends S G (λ a w'. is_neg a ≡ true → w' ≡ w) (m w)

  pub gets-IsReader : {A : Type 0} (f : World G S → A) → IsReader (gets f)
  unfolding gets
  gets-IsReader f = record { at = λ w. refl }

  pub is_null-IsReader : (s : SessionArg G) → IsReader (is_null S G s)
  unfolding is_null pure gets
  is_null-IsReader null = record { at = λ w. refl }
  is_null-IsReader of_client = record { at = λ w. refl }
  is_null-IsReader (found p) = record { at = λ w. refl }

  pub pure-FailsClean : (a : ℤ) → FailsClean (pure a)
  unfolding pure
  pure-FailsClean a = record { at = λ w n. refl }

  pub if-FailsClean :
      (b : Bool) (m k : Do S G ℤ) → FailsClean m → FailsClean k → FailsClean (if b then m else k)
  if-FailsClean true m k p q = p
  if-FailsClean false m k p q = q

  pub unless_null-FailsClean :
      {B : Type 0} (o : Option B) (m : Do S G ℤ) (f : B → Do S G ℤ)
      → FailsClean m
      → ((b : B) → FailsClean (f b))
      → FailsClean (unless_null o m f)
  unfolding unless_null
  unless_null-FailsClean none m f p q = p
  unless_null-FailsClean (some b) m f p q = q b

  read_then :
      {A : Type 0} (w : World G S) (r : Option (A × World G S)) (f : A → Do S G ℤ)
      → ((a : A) → FailsClean (f a))
      → Ends S G (λ a w'. w' ≡ w) r
      → Ends S G (λ a w'. is_neg a ≡ true → w' ≡ w) (bind r f)
  read_then w none f h e = tt
  read_then w (some (a, w')) f h e = rw e ((h a).at w)

  pub bind-FailsClean :
      {A : Type 0} (m : Do S G A) (f : A → Do S G ℤ)
      → IsReader m
      → ((a : A) → FailsClean (f a))
      → FailsClean (m >>= f)
  unfolding ◌>>=◌
  bind-FailsClean m f r h = record { at = λ w. read_then w (m w) f h (r.at w) }

  pub ruleset clean = (
    gets-IsReader, is_null-IsReader, pure-FailsClean, if-FailsClean, unless_null-FailsClean,
    bind-FailsClean,
  )

  module _ (H : Host G) where
    pub store-FailsClean :
        (c : Client G) (a : ℤ) → is_neg a ≡ false → FailsClean (store_client S G H (a, some c))
    unfolding ◌>>=◌
    store-FailsClean c a e = record { at = λ w n. cc (e, n) }

    pub in_session-FailsClean :
        (s : SessionArg G) (f : Option (Session G) → ℤ × Option (Session G))
        → ((t : Option (Session G)) → is_neg (f t).0 ≡ true → (f t).1 ≡ t)
        → FailsClean (session_of S G s >>= λ t. set_session S G s (f t).1 >> pure (f t).0)
    unfolding ◌>>=◌ session_of set_session
    in_session-FailsClean null f h = record { at = λ w. tt }
    in_session-FailsClean of_client f h = record {
      at = λ w n.
          ap (λ t. record w { client = record w.client { default_session = t } })
            (h w.client.default_session n);
    }
    in_session-FailsClean (found p) f h = record { at = λ w. tt }

    pub session_of-IsReader : (s : SessionArg G) → IsReader (session_of S G s)
    unfolding session_of pure gets fault
    session_of-IsReader null = record { at = λ w. refl }
    session_of-IsReader of_client = record { at = λ w. refl }
    session_of-IsReader (found p) = record { at = λ w. tt }

    pub set-FailsClean :
        (s : SessionArg G) (t : Option (Session G)) (a : ℤ)
        → is_neg a ≡ false
        → FailsClean (set_session S G s t >> pure a)
    unfolding ◌>>=◌ set_session
    set-FailsClean null t a e = record { at = λ w. tt }
    set-FailsClean of_client t a e = record { at = λ w n. cc (e, n) }
    set-FailsClean (found p) t a e = record { at = λ w. tt }

    pub write_scope-FailsClean :
        (s : SessionArg G) (scope : ℕ) (f : Option (Session G) → ℤ × Option (Session G))
        (g : Option (Search G) → ℤ × Option (Search G))
        → ((t : Option (Session G)) → is_neg (f t).0 ≡ true → (f t).1 ≡ t)
        → ((q : Search G) → is_neg (g (some q)).0 ≡ false)
        → FailsClean (write_scope S G H s scope f g)
    write_scope-FailsClean s scope f g h k =
        if-FailsClean (meets scope scope_session) _ _ (in_session-FailsClean s f h) (
          if-FailsClean (meets scope scope_search) _ _
            (bind-FailsClean _ _ (session_of-IsReader s) λ t.
              unless_null-FailsClean t _ _ (pure-FailsClean minus_one) λ t'.
                unless_null-FailsClean (session_get_search G (some t')) _ _
                  (pure-FailsClean minus_one) λ q. set-FailsClean s _ _ (k q))
            (pure-FailsClean minus_one))
