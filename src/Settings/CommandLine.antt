-- ===== src/Settings/CommandLine.antt =====
-- What the options on the command line leave in each setting.
use secoli_sced.Base.{
  Bytes, ℕ, Bool, ◌≡◌, refl, ap, ◌∙◌, List, [], ◌∷◌, Option, none, some, if◌then◌else◌, ◌==◌, arith,
  ℤ, pos, to_uint,
}
use secoli_sced.Clib.{atoi}
use secoli_sced.Settings.{Settings, copy, process_option, process_options}

-- The argument of the last option with the character `c`.
unfoldable pub last_of : ℕ → List (ℕ × Bytes) → Option Bytes
last_of c [] = none
last_of c ((d, a) ∷ os) = elim (last_of c os) [
  | none ↦ if d == c then some a else none
  | some b ↦ some b
]

abbrev pub or_keep : {A : Type 0} → (Bytes → A) → A → Option Bytes → A
or_keep val v o = elim o [ none ↦ v | some b ↦ val b ]

last_of-cons :
    {A : Type 0} (val : Bytes → A) (v : A) (c d : ℕ) (a : Bytes) (os : List (ℕ × Bytes))
    → or_keep val (if d == c then val a else v) (last_of c os)
      ≡ or_keep val v (last_of c ((d, a) ∷ os))
unfolding last_of
last_of-cons val v c d a os = ground arith

module _ {A : Type 0} (field : Settings → A) (val : Bytes → A) (c : ℕ) where
  abbrev pub Sets : Type 0
  Sets =
      (d : ℕ) (a : Bytes) (st : ℤ × Bool × Settings)
      → field (process_option (d, a) st).2 ≡ (if d == c then val a else field st.2)

  pub process_options-last_of :
      Sets
      → (os : List (ℕ × Bytes)) (st : ℤ × Bool × Settings)
      → field (process_options os st).2 ≡ or_keep val (field st.2) (last_of c os)
  unfolding process_options
  process_options-last_of p [] st = unfold last_of in refl
  process_options-last_of p ((d, a) ∷ os) st =
      process_options-last_of p os (process_option (d, a) st)
      ∙ ap (λ v. or_keep val v (last_of c os)) (p d a st)
      ∙ last_of-cons val (field st.2) c d a os

pub sets_addr : Sets (λ s. s.bind_addr) (copy 64) b'a'
unfolding process_option
sets_addr d a (e, h, s) = ground arith

pub sets_configfile : Sets (λ s. s.configfile) (copy 256) b'c'
unfolding process_option
sets_configfile d a (e, h, s) = ground arith

pub sets_user : Sets (λ s. s.user) (copy 64) b'u'
unfolding process_option
sets_user d a (e, h, s) = ground arith

pub sets_port : Sets (λ s. s.bind_port) (λ a. to_uint (atoi a)) b'p'
unfolding process_option
sets_port d a (e, h, s) = ground arith

pub sets_foreground : Sets (λ s. s.foreground_mode) (λ a. pos 1) b'f'
unfolding process_option
sets_foreground d a (e, h, s) = ground arith
