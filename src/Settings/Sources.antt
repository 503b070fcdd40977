-- ===== src/Settings/Sources.antt =====
-- Where each setting comes from: the command line, else the configuration file, else the default.
use secoli_sced.Base.{
  Bytes, codes, ℕ, Bool, true, false, Bool-cases, Option-cases, inl, inr, ◌≡◌, refl, sym, ◌∙◌, List,
  ◌++◌, Option, none, some, if◌then◌else◌, ◌==◌, eqb_ℤ, arith, ℤ, pos, minus_one, is_neg, to_uint,
}
use secoli_sced.Clib.{atoi}
use secoli_sced.Settings.CommandLine.{
  Sets, or_keep, last_of, process_options-last_of, sets_addr, sets_configfile, sets_user, sets_port,
  sets_foreground,
}
use secoli_sced.Settings.{
  Settings, strncpy, copy, unset_int, unset_str, is_unset, text_in, clear_settings, process_options,
  process_command_line, set_default_settings, take_settings, process_configfile, configure,
  with_configfile, read_settings,
}
use secoli_sced.Xconfig.{
  Libconfig, xconfig_read_file, xconfig_get_string, xconfig_get_bool, xconfig_get_int,
}

-- The first of three values that is not the one for unset; the last is taken in any case.
unfoldable pub first_set : {A : Type 0} → (A → Bool) → Option A → A → A → A
first_set is_none none b c = if is_none b then c else b
first_set is_none (some a) b c = if is_none a then (if is_none b then c else b) else a

unfoldable pub option_of : {A B : Type 0} → (A → B) → Option A → Option B
option_of f none = none
option_of f (some a) = some (f a)

-- The tests of `process_configfile` and of `set_default_settings`, one behind the other.
chain-first_set :
    {A : Type 0} (is_none : A → Bool) (val : Bytes → A) (unset b c : A) (o : Option Bytes)
    → is_none unset ≡ true
    → let a = or_keep val unset o in
      let a' = if is_none a then b else a in
      (if is_none a' then c else a') ≡ first_set is_none (option_of val o) b c
unfolding first_set option_of
chain-first_set is_none val unset b c none u = rw u refl
chain-first_set is_none val unset b c (some t) u = elim (Bool-cases (is_none (val t))) [
  | inl e ↦ rw e refl
  | inr e ↦ rw (e, e) refl
]

once :
    {A : Type 0} (is_none : A → Bool) (a d : A)
    → (if is_none a then d else a)
      ≡ (let a' = if is_none a then d else a in if is_none a' then d else a')
once is_none a d = ground arith

module _ (L : Libconfig) where
  abbrev is_unset_int : ℕ → Bool
  is_unset_int n = n == unset_int

  abbrev is_minus_one : ℤ → Bool
  is_minus_one z = eqb_ℤ z minus_one

  -- Settings that options, a configuration and the defaults give, in this order.
  pub record AreChosen (high : ℤ) (os : List (ℕ × Bytes)) (c : Option L.Config) (s : Settings)
      : Type 0 where
    pub bind_addr :
        s.bind_addr
        ≡ first_set is_unset
            (option_of (copy 64) (last_of b'a' os))
            (strncpy 64 (xconfig_get_string L c (codes "Server") (codes "BindAddress") unset_str))
            (strncpy 64 (codes "127.0.0.1"))
    pub bind_port :
        s.bind_port
        ≡ first_set is_unset_int
            (option_of (λ a. to_uint (atoi a)) (last_of b'p' os))
            (to_uint (xconfig_get_int L high c (codes "Server") (codes "BindPort") minus_one))
            5005
    pub user :
        s.user
        ≡ first_set is_unset
            (option_of (copy 64) (last_of b'u' os))
            (strncpy 64 (xconfig_get_string L c (codes "Server") (codes "User") unset_str))
            (strncpy 64 (codes "nobody"))
    pub foreground_mode :
        s.foreground_mode
        ≡ first_set is_minus_one
            (option_of (λ a. pos 1) (last_of b'f' os))
            (xconfig_get_bool L c (codes "Server") (codes "Foreground") minus_one)
            (pos 0)

  cleared_addr : is_unset clear_settings.bind_addr ≡ true
  unfolding clear_settings strncpy is_unset
  cleared_addr = refl

  cleared_user : is_unset clear_settings.user ≡ true
  unfolding clear_settings strncpy is_unset
  cleared_user = refl

  cleared_port : is_unset_int clear_settings.bind_port ≡ true
  unfolding clear_settings
  cleared_port = refl

  cleared_foreground : is_minus_one clear_settings.foreground_mode ≡ true
  unfolding clear_settings
  cleared_foreground = refl

  cleared_configfile : is_unset clear_settings.configfile ≡ true
  unfolding clear_settings strncpy is_unset
  cleared_configfile = refl

  -- What the options give, of settings that have been cleared.
  abbrev optioned : Bytes → List (ℕ × Bytes) → Settings
  optioned sysconfdir os =
      with_configfile sysconfdir (process_options os (pos 0, false, clear_settings)).2

  module _ {A : Type 0} (field : Settings → A) (val : Bytes → A) (is_none : A → Bool) where
    setting-first_set :
        (k : ℕ) (os : List (ℕ × Bytes)) (b c : A)
        → Sets field val k
        → is_none (field clear_settings) ≡ true
        → let a = field (process_options os (pos 0, false, clear_settings)).2 in
          let a' = if is_none a then b else a in
          (if is_none a' then c else a') ≡ first_set is_none (option_of val (last_of k os)) b c
    setting-first_set k os b c p u =
        rw (process_options-last_of field val k p os (pos 0, false, clear_settings))
          (chain-first_set is_none val (field clear_settings) b c (last_of k os) u)

  optioned-AreChosen :
      (high : ℤ) (os : List (ℕ × Bytes)) (c : Option L.Config) (sysconfdir : Bytes)
      → AreChosen high os c
          (set_default_settings (take_settings L high c (optioned sysconfdir os))).1
  unfolding set_default_settings take_settings with_configfile
  optioned-AreChosen high os c sysconfdir = record {
    bind_addr = setting-first_set _ _ is_unset _ os _ _ sets_addr cleared_addr;
    bind_port = setting-first_set _ _ is_unset_int _ os _ _ sets_port cleared_port;
    user = setting-first_set _ _ is_unset _ os _ _ sets_user cleared_user;
    foreground_mode =
        setting-first_set _ _ is_minus_one _ os _ _ sets_foreground cleared_foreground;
  }

  abbrev file_name : Bytes → List (ℕ × Bytes) → Bytes
  file_name sysconfdir os =
      let default_name = strncpy 256 (sysconfdir ++ codes "/SCEd.cfg") in
      first_set is_unset (option_of (copy 256) (last_of b'c' os)) default_name default_name

  -- The file that is read, and what is chosen then.
  pub record IsRead (read : Bytes → Option L.Config) (high : ℤ) (sysconfdir : Bytes)
      (os : List (ℕ × Bytes)) (config : Option L.Config) (s : Settings) : Type 0 where
    pub name : Bytes
    pub found : text_in (file_name sysconfdir os) ≡ some name
    pub file : L.Config
    pub opened : read name ≡ some file
    pub kept : config ≡ some file
    pub settings : AreChosen high os config s

  configure-read :
      (read : Bytes → Option L.Config) (high : ℤ) (name : Bytes) (s : Settings)
      → configure L read high (some name) none s ≡ elim (read name) [
        | none ↦ some (minus_one, s, none)
        | some c ↦ some (pos 0, (set_default_settings (take_settings L high (some c) s)).1, some c)
      ]
  unfolding configure process_configfile xconfig_read_file set_default_settings
  configure-read read high name s = ground arith

  configure-some :
      (read : Bytes → Option L.Config) (high : ℤ) (file : Option Bytes) (s0 s : Settings)
      (config : Option L.Config) (e : ℤ)
      → is_neg e ≡ false
      → configure L read high file none s0 ≡ some (e, s, config)
      → (name : Bytes) × (c : L.Config) × (file ≡ some name)
        × (read name ≡ some c)
        × (config ≡ some c)
        × (s ≡ (set_default_settings (take_settings L high config s0)).1)
  unfolding configure
  configure-some read high none s0 s config e p h = cc h
  configure-some read high (some name) s0 s config e p h = elim (Option-cases (read name)) [
    | inl n ↦ ground (arith, rw n at (sym (configure-read read high name s0) ∙ h))
    | inr (c, n) ↦
        let k = rw n at (sym (configure-read read high name s0) ∙ h) in
        (name, c, refl, n, cc k, cc k)
  ]

  with_configfile-file_name :
      (sysconfdir : Bytes) (os : List (ℕ × Bytes))
      → (optioned sysconfdir os).configfile ≡ file_name sysconfdir os
  unfolding with_configfile
  with_configfile-file_name sysconfdir os =
      let d = strncpy 256 (sysconfdir ++ codes "/SCEd.cfg") in
      once is_unset (process_options os (pos 0, false, clear_settings)).2.configfile d
      ∙ setting-first_set _ _ is_unset _ os d d sets_configfile cleared_configfile

  pub read_settings-IsRead :
      (read : Bytes → Option L.Config) (high : ℤ) (sysconfdir : Bytes) (os : List (ℕ × Bytes))
      (left_over : Bool) (s : Settings) (config : Option L.Config) (e : ℤ)
      → is_neg e ≡ false
      → read_settings L read high sysconfdir os left_over none clear_settings ≡ some (e, s, config)
      → IsRead read high sysconfdir os config s
  unfolding read_settings process_command_line
  read_settings-IsRead read high sysconfdir os left_over s config e p h =
      elim (Bool-cases (is_neg e')) [
        | inl n ↦ ground (arith, rw n at h)
        | inr n ↦
            let (name, c, found, opened, kept, set_to) =
              configure-some read high (text_in s2.configfile) s2 s config e p (rw n at h) in
            record {
              name = name;
              found = rw (with_configfile-file_name sysconfdir os) at found;
              file = c;
              opened = opened;
              kept = kept;
              settings = rw set_to (optioned-AreChosen high os config sysconfdir);
            }
      ]
    where
      e' : ℤ
      e' = (process_command_line os left_over clear_settings).0

      s2 : Settings
      s2 = optioned sysconfdir os
