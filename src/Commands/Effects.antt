-- ===== src/Commands/Effects.antt =====
-- What a message can do to who the client is, to the messages that
-- wait, and to whether the program runs.
pub mod Messages
pub mod Login
use secoli_sced.Action.{Action, pure, fault, gets, modify, unless_null, bind, ◌>>=◌, ◌>>◌}
use secoli_sced.Base.{
  Bytes, codes, ◌≡◌, refl, ◌∙◌, ap, inl, inr, Bool, Bool-cases, true, false, not, ◌&&◌, List, [],
  ◌∷◌, Option, none, some, ℤ, pos, arith, str_eq, str_eq_iff, if◌then◌else◌, eqb_ℤ, Option-cases,
}
use secoli_sced.Search.{Glib}
use secoli_sced.User.{User}
use secoli_sced.World.Kept.{Kept, kept, refl-Kept, trans-Kept, Ends, IsKept}
use secoli_sced.Client.{Client}
use secoli_sced.World.{World, Host, SessionArg, Do, client_of, set_client}
use secoli_sced.Xsqlite.{Sqlite}

module _ (S : Sqlite) (G : Glib) (H : Host G) where
  pub data Effect (argv : List Bytes) (w w' : World G S) : Type 0 where
    keeps_all : Kept S G w w' → Effect argv w w'
    logs_in :
        (cmd name password : Bytes)
        → argv ≡ cmd ∷ codes "USER" ∷ name ∷ codes "WITH" ∷ codes "PASSWORD" ∷ password ∷ []
        → H.passwords name ≡ some password
        → w'.has_exited ≡ w.has_exited
        → w'.client.messages ≡ w.client.messages
        → Effect argv w w'
    logs_out :
        w'.client.user_of ≡ none
        → w'.has_exited ≡ w.has_exited
        → w'.client.messages ≡ w.client.messages
        → Effect argv w w'
    quits :
        w'.client.user_of ≡ w.client.user_of
        → w'.has_exited ≡ w.has_exited
        → w'.client.messages ≡ w.client.messages
        → Effect argv w w'
    exits :
        (u : User)
        → w.client.user_of ≡ some u
        → w'.client.user_of ≡ w.client.user_of
        → w'.client.messages ≡ w.client.messages
        → Effect argv w w'

  pub record HasEffect {A : Type 0} (argv : List Bytes) (m : Do S G A) : Type 0 where
    pub at : (w : World G S) → Ends S G (λ a w'. Effect argv w w') (m w)

  pub Effect-Kept :
      {argv : List Bytes} (w w' w2 : World G S)
      → Effect argv w w'
      → Kept S G w' w2
      → Effect argv w w2
  Effect-Kept w w' w2 (keeps_all k) l = keeps_all (trans-Kept S G w w' w2 k l)
  Effect-Kept w w' w2 (logs_in c n p e s x i) (kept u so m x' ls t) =
      logs_in c n p e s (x' ∙ x) (m ∙ i)
  Effect-Kept w w' w2 (logs_out u x i) (kept u' so m x' ls t) = logs_out (u' ∙ u) (x' ∙ x) (m ∙ i)
  Effect-Kept w w' w2 (quits u x i) (kept u' so m x' ls t) = quits (u' ∙ u) (x' ∙ x) (m ∙ i)
  Effect-Kept w w' w2 (exits v e u i) (kept u' so m x' ls t) = exits v e (u' ∙ u) (m ∙ i)

  pub Kept-Effect :
      {argv : List Bytes} (w w' w2 : World G S)
      → Kept S G w w'
      → Effect argv w' w2
      → Effect argv w w2
  Kept-Effect w w' w2 l (keeps_all k) = keeps_all (trans-Kept S G w w' w2 l k)
  Kept-Effect w w' w2 (kept u so m x ls t) (logs_in c n p e s x' i) =
      logs_in c n p e s (x' ∙ x) (i ∙ m)
  Kept-Effect w w' w2 (kept u so m x ls t) (logs_out u' x' i) = logs_out u' (x' ∙ x) (i ∙ m)
  Kept-Effect w w' w2 (kept u so m x ls t) (quits u' x' i) = quits (u' ∙ u) (x' ∙ x) (i ∙ m)
  Kept-Effect w w' w2 (kept u so m x ls t) (exits v e u' i) = exits v (rw u at e) (u' ∙ u) (i ∙ m)

  pub Ends-map :
      {A : Type 0} {P Q : A → World G S → Type 0} (r : Option (A × World G S))
      → ((a : A) (w : World G S) → P a w → Q a w)
      → Ends S G P r
      → Ends S G Q r
  Ends-map none f h = tt
  Ends-map (some (a, w)) f h = f a w h

  Ends-bind :
      {A B : Type 0} (P : A → World G S → Type 0) (Q : B → World G S → Type 0)
      (r : Option (A × World G S)) (f : A → Do S G B)
      → ((a : A) (w : World G S) → P a w → Ends S G Q (f a w))
      → Ends S G P r
      → Ends S G Q (bind r f)
  Ends-bind P Q none f g h = tt
  Ends-bind P Q (some (a, w)) f g h = g a w h

  pub of_kept : {A : Type 0} (argv : List Bytes) (m : Do S G A) → IsKept S G m → HasEffect argv m
  of_kept argv m k = record { at = λ w. Ends-map (m w) (λ a w' l. keeps_all l) (k.at w) }

  pub then_kept :
      {A B : Type 0} (argv : List Bytes) (m : Do S G A) (f : A → Do S G B)
      → HasEffect argv m
      → ((a : A) → IsKept S G (f a))
      → HasEffect argv (m >>= f)
  unfolding ◌>>=◌
  then_kept argv m f h k = record {
    at = λ w.
        Ends-bind (λ a w'. Effect argv w w') (λ b w2. Effect argv w w2) (m w) f
          (λ a w' e. Ends-map (f a w') (λ b w2 l. Effect-Kept w w' w2 e l) ((k a).at w')) (h.at w);
  }

  pub kept_then :
      {A B : Type 0} (argv : List Bytes) (m : Do S G A) (f : A → Do S G B)
      → IsKept S G m
      → ((a : A) → HasEffect argv (f a))
      → HasEffect argv (m >>= f)
  unfolding ◌>>=◌
  kept_then argv m f k h = record {
    at = λ w.
        Ends-bind (λ a w'. Kept S G w w') (λ b w2. Effect argv w w2) (m w) f
          (λ a w' l. Ends-map (f a w') (λ b w2 e. Kept-Effect w w' w2 l e) ((h a).at w')) (k.at w);
  }

  pub if-HasEffect :
      {A : Type 0} (argv : List Bytes) (b : Bool) (m k : Do S G A)
      → (b ≡ true → HasEffect argv m)
      → (b ≡ false → HasEffect argv k)
      → HasEffect argv (if b then m else k)
  if-HasEffect argv true m k p q = p refl
  if-HasEffect argv false m k p q = q refl

  pub unless_null-HasEffect :
      {A B : Type 0} (argv : List Bytes) (o : Option B) (m : Do S G A) (f : B → Do S G A)
      → HasEffect argv m
      → ((b : B) → o ≡ some b → HasEffect argv (f b))
      → HasEffect argv (unless_null o m f)
  unfolding unless_null
  unless_null-HasEffect argv none m f p q = p
  unless_null-HasEffect argv (some b) m f p q = q b refl

  -- A change of the client, and what follows it.
  pub change_then :
      {A : Type 0} (argv : List Bytes) (f : Client G → Client G) (m : Do S G A)
      → ((w : World G S) → Effect argv w (record w { client = f w.client }))
      → IsKept S G m
      → HasEffect argv (client_of S G >>= λ c. set_client S G (f c) >> m)
  unfolding ◌>>=◌
  change_then argv f m e k = record {
    at = λ w.
        let w' = record w { client = f w.client } in
        Ends-map (m w') (λ a w2 l. Effect-Kept w w' w2 (e w) l) (k.at w');
  }
