-- ===== src/Commands/Answers/Total.antt =====
-- The commands that look at no session are always answered: they do not fault.
use secoli_sced.Action.{unless_null, pure, gets, modify, bind, ◌>>=◌}
use secoli_sced.Base.{Bytes, ◌≡◌, refl, Bool, true, false, Option, none, some, if◌then◌else◌}
use secoli_sced.Client.{Client}
use secoli_sced.Commands.Handlers.{ok, undefined, unavailable}
use secoli_sced.Commands.{
  Command, announce, authenticate, deauthenticate, echo, hello, negotiate, quit, shutdown, who,
}
use secoli_sced.Search.{Glib}
use secoli_sced.World.{
  World, Host, Do, sock_printf, sock_answer_ok, sock_answer_undefined, sock_answer_unavailable,
}
use secoli_sced.Xsqlite.{Sqlite}

-- The commands whose handlers read no session, and a keyword of no command.
abbrev pub looks_at_none : Option Command → Bool
looks_at_none none = true
looks_at_none (some c) = elim c [
  | announce ↦ true
  | authenticate ↦ true
  | deauthenticate ↦ true
  | echo ↦ true
  | hello ↦ true
  | negotiate ↦ true
  | quit ↦ true
  | shutdown ↦ true
  | who ↦ true
  | _ ↦ false
]

module _ (S : Sqlite) (G : Glib) (H : Host G) where
  record IsTotal {A : Type 0} (m : Do S G A) : Type 0 where
    at : (w : World G S) → (a : A) × (w' : World G S) × (m w ≡ some (a, w'))

  module _ {A : Type 0} where
    pure-IsTotal : (a : A) → IsTotal (pure a)
    unfolding pure
    pure-IsTotal a = record { at = λ w. (a, w, refl) }

    gets-IsTotal : (f : World G S → A) → IsTotal (gets f)
    unfolding gets
    gets-IsTotal f = record { at = λ w. (f w, w, refl) }

    if-IsTotal : (b : Bool) (m k : Do S G A) → IsTotal m → IsTotal k → IsTotal (if b then m else k)
    if-IsTotal true m k p q = p
    if-IsTotal false m k p q = q

    unless_null-IsTotal :
        {B : Type 0} (o : Option B) (m : Do S G A) (f : B → Do S G A)
        → IsTotal m
        → ((b : B) → IsTotal (f b))
        → IsTotal (unless_null o m f)
    unfolding unless_null
    unless_null-IsTotal none m f p q = p
    unless_null-IsTotal (some b) m f p q = q b

  modify-IsTotal : (f : World G S → World G S) → IsTotal (modify f)
  unfolding modify
  modify-IsTotal f = record { at = λ w. (tt, f w, refl) }

  bind-IsTotal :
      {A B : Type 0} (m : Do S G A) (f : A → Do S G B)
      → IsTotal m
      → ((a : A) → IsTotal (f a))
      → IsTotal (m >>= f)
  unfolding ◌>>=◌
  bind-IsTotal m f p q = record {
    at = λ w. let (a, w1, e) = p.at w in let (b, w2, d) = (q a).at w1 in (b, w2, rw (e, bind) d);
  }

  ruleset rules =
      (pure-IsTotal, gets-IsTotal, modify-IsTotal, if-IsTotal, unless_null-IsTotal, bind-IsTotal)

  sock_printf-IsTotal : (text : Bytes) → IsTotal (sock_printf S G text)
  unfolding sock_printf
  sock_printf-IsTotal text = search rules

  ok-IsTotal : IsTotal (ok S G H)
  unfolding ok sock_answer_ok
  ok-IsTotal = search rules depth 14

  undefined-IsTotal : IsTotal (undefined S G H)
  unfolding undefined sock_answer_undefined
  undefined-IsTotal = search rules depth 14

  unavailable-IsTotal : IsTotal (unavailable S G H)
  unfolding unavailable sock_answer_unavailable
  unavailable-IsTotal = search rules depth 14

  ruleset answers = (rules, sock_printf-IsTotal, ok-IsTotal, undefined-IsTotal, unavailable-IsTotal)
