-- ===== src/Commands/Answers.antt =====
-- A message is answered: the rules.
pub mod Printed
pub mod Results
pub mod Message
pub mod Always
pub mod Total
use secoli_sced.Action.{Action, pure, fault, gets, modify, unless_null, bind, ◌>>=◌, ◌>>◌}
use secoli_sced.Base.{
  Bytes, codes, ◌≡◌, refl, ◌∙◌, sym, ap, Bool, Bool-cases, inl, inr, true, false, List, [], ◌∷◌,
  ◌++◌, Option, none, some, ℤ, pos, minus_one, eqb_ℤ, if◌then◌else◌,
}
use mathlib.Core.List.{append_assoc}
use secoli_sced.Client.{Client, client_get_socket, sock_unset}
use secoli_sced.Clib.{snprintf}
use secoli_sced.Search.{Glib}
use secoli_sced.World.Kept.{Kept, kept, refl-Kept, trans-Kept, Ends, IsKept}
use secoli_sced.World.{World, Do, client_of, set_client, sock_printf, print_all, answer}
use secoli_sced.Xsqlite.{Sqlite}

module _ (S : Sqlite) (G : Glib) where
  -- At least one line is sent; or the handler returns an error; or the client or the program is
  -- to go.
  pub data Answered (a : ℤ) (w w' : World G S) : Type 0 where
    speaks : (line : Bytes) (more : List Bytes) → w'.sent ≡ w.sent ++ line ∷ more → Answered a w w'
    fails : eqb_ℤ a (pos 0) ≡ false → Kept S G w w' → Answered a w w'
    leaves : eqb_ℤ a (pos 0) ≡ true → w'.client.destroy ≡ true → Answered a w w'
    ends : eqb_ℤ a (pos 0) ≡ true → w'.has_exited ≡ true → Answered a w w'

  pub record IsAnswered (m : Do S G ℤ) : Type 0 where
    pub at :
        (w : World G S)
        → eqb_ℤ w.client.sock sock_unset ≡ false
        → Ends S G (λ a w'. Answered a w w') (m w)

  pub Kept-Answered :
      (a : ℤ) (w w' w2 : World G S) → Kept S G w w' → Answered a w' w2 → Answered a w w2
  Kept-Answered a w w' w2 (kept u s m x [] t) (speaks l ls p) =
      speaks l ls (p ∙ rw t (append_assoc w.sent [] (l ∷ ls)))
  Kept-Answered a w w' w2 (kept u s m x (k ∷ ks) t) (speaks l ls p) =
      speaks k (ks ++ l ∷ ls) (p ∙ rw t (append_assoc w.sent (k ∷ ks) (l ∷ ls)))
  Kept-Answered a w w' w2 k (fails e l) = fails e (trans-Kept S G w w' w2 k l)
  Kept-Answered a w w' w2 k (leaves z e) = leaves z e
  Kept-Answered a w w' w2 k (ends z e) = ends z e

  pub same_socket : (w w' : World G S) → Kept S G w w' → w'.client.sock ≡ w.client.sock
  same_socket w w' (kept u s m x ls t) = s

  Ends-kept :
      {A : Type 0} (w : World G S) (r : Option (A × World G S)) (f : A → Do S G ℤ)
      → eqb_ℤ w.client.sock sock_unset ≡ false
      → ((a : A) → IsAnswered (f a))
      → Ends S G (λ a w'. Kept S G w w') r
      → Ends S G (λ b w2. Answered b w w2) (bind r f)
  Ends-kept w none f s h k = tt
  Ends-kept w (some (a, w')) f s h k = go (f a w') ((h a).at w' (rw (same_socket w w' k) s))
    where
      go :
          (r : Option (ℤ × World G S))
          → Ends S G (λ b w2. Answered b w' w2) r
          → Ends S G (λ b w2. Answered b w w2) r
      go none e = tt
      go (some (b, w2)) e = Kept-Answered b w w' w2 k e

  pub bind-IsAnswered :
      {A : Type 0} (m : Do S G A) (f : A → Do S G ℤ)
      → IsKept S G m
      → ((a : A) → IsAnswered (f a))
      → IsAnswered (m >>= f)
  unfolding ◌>>=◌
  bind-IsAnswered m f k h = record { at = λ w s. Ends-kept w (m w) f s h (k.at w) }

  pub if-IsAnswered :
      (b : Bool) (m k : Do S G ℤ)
      → (b ≡ true → IsAnswered m)
      → (b ≡ false → IsAnswered k)
      → IsAnswered (if b then m else k)
  if-IsAnswered true m k p q = p refl
  if-IsAnswered false m k p q = q refl

  pub unless_null-IsAnswered :
      {B : Type 0} (o : Option B) (m : Do S G ℤ) (f : B → Do S G ℤ)
      → IsAnswered m
      → ((b : B) → o ≡ some b → IsAnswered (f b))
      → IsAnswered (unless_null o m f)
  unfolding unless_null
  unless_null-IsAnswered none m f p q = p
  unless_null-IsAnswered (some b) m f p q = q b refl

  pub fault-IsAnswered : IsAnswered fault
  unfolding fault
  fault-IsAnswered = record { at = λ w s. tt }

  pub error-IsAnswered : IsAnswered (pure minus_one)
  unfolding pure
  error-IsAnswered = record { at = λ w s. fails refl (refl-Kept S G w) }

  pub print-IsAnswered : (text : Bytes) (a : ℤ) → IsAnswered (sock_printf S G text >> pure a)
  unfolding ◌>>=◌ sock_printf
  print-IsAnswered text a = record { at = λ w s. speaks (snprintf 8192 text) [] refl }

  pub answer-IsAnswered : (text : Bytes) (a : ℤ) → IsAnswered (answer S G text >> pure a)
  unfolding ◌>>=◌ sock_printf client_get_socket
  answer-IsAnswered text a = record { at = λ w s. rw s (speaks _ [] refl) }

  pub change-IsAnswered :
      (f : Client G → Client G) (text : Bytes) (a : ℤ)
      → ((c : Client G) → (f c).sock ≡ c.sock)
      → IsAnswered (client_of S G >>= λ c. set_client S G (f c) >> (answer S G text >> pure a))
  unfolding ◌>>=◌ sock_printf client_get_socket
  change-IsAnswered f text a h = record { at = λ w s. rw (h w.client, s) (speaks _ [] refl) }

  pub ruleset spoken = (
    bind-IsAnswered, if-IsAnswered, unless_null-IsAnswered, fault-IsAnswered, error-IsAnswered,
    print-IsAnswered, answer-IsAnswered,
  )
