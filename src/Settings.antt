-- ===== src/Settings.antt =====
-- src/main.c: the settings of the daemon, from the command line, the configuration file and the
-- defaults, when it starts and when it gets a signal to reload.
pub mod CommandLine
pub mod Sources
pub mod Starting
mod Tests
use secoli_sced.Base.{
  str_eq, Bytes, codes, ℕ, zero, suc, ◌-◌, ◌^◌, Bool, true, false, ◌&&◌, ◌||◌, ◌≡◌, List, [], ◌∷◌,
  ◌++◌, Option, none, some, if◌then◌else◌, ltb, ◌==◌, eqb_ℤ, length, take, set, ℤ, pos, minus_one,
  is_neg, to_uint,
}
use secoli_sced.Clib.{atoi}
use secoli_sced.Xconfig.{
  Libconfig, xconfig_read_file, xconfig_clear, xconfig_get_string, xconfig_get_bool,
  xconfig_get_int,
}

-- Whether an argument is `--`.
unfoldable pub has_dashes : List Bytes → Bool
has_dashes [] = false
has_dashes (a ∷ argv) = str_eq a (codes "--") || has_dashes argv

-- getopt of the C library. `calls argv optind` is what it returns from `optind` on until it
-- returns -1, an option's character with `optarg`, and `optind` then. Once it has returned -1,
-- what stands from `optind` on is no option, so another call returns -1 at once. This is not said
-- of arguments with a `--`, behind which an argument may look like an option.
pub record Getopt : Type 0 where
  pub calls : List Bytes → ℕ → List (ℕ × Bytes) × ℕ
  pub calls-again :
      (argv : List Bytes) (i : ℕ)
      → has_dashes argv ≡ false
      → calls argv (calls argv i).1 ≡ ([], (calls argv i).1)

-- The texts are buffers, with what stands behind the NUL.
pub record Settings : Type 0 where
  pub bind_port : ℕ
  pub bind_addr : Bytes
  pub configfile : Bytes
  pub user : Bytes
  pub foreground_mode : ℤ

abbrev zeros : ℕ → Bytes
zeros zero = []
zeros (suc n) = 0 ∷ zeros n

-- What `strncpy` writes to a buffer of `n` bytes.
unfoldable pub strncpy : ℕ → Bytes → Bytes
strncpy n text = take n (text ++ zeros n)

-- `strncpy` and a NUL in the last byte.
unfoldable pub copy : ℕ → Bytes → Bytes
unfolding strncpy
copy n text = set (strncpy n text) (n - 1) 0

abbrev pub unset_int : ℕ
unset_int = 2 ^ 32 - 1

abbrev pub unset_str : Bytes
unset_str = 1 ∷ []

-- `strcmp(buffer, UNSET_STR) == 0`
unfoldable pub is_unset : Bytes → Bool
is_unset (c ∷ d ∷ buffer) = c == 1 && d == 0
is_unset _ = false

-- The string in a buffer, if a NUL ends it there.
unfoldable pub text_in : Bytes → Option Bytes
text_in [] = none
text_in (c ∷ buffer) =
    let rest = text_in buffer in
    if c == 0 then some [] else elim rest [ none ↦ none | some text ↦ some (c ∷ text) ]

-- Whatever the settings have been.
unfoldable pub clear_settings : Settings
unfolding strncpy
clear_settings = record {
  bind_port = unset_int;
  bind_addr = strncpy 64 unset_str;
  configfile = strncpy 256 unset_str;
  user = strncpy 64 unset_str;
  foreground_mode = minus_one;
}

-- The body of the loop over the options, on `e`, `help` and the settings.
unfoldable pub process_option : ℕ × Bytes → ℤ × Bool × Settings → ℤ × Bool × Settings
process_option (c, optarg) (e, help, s) =
    if c == b'h'
    then (e, true, s)
    else if c == b'c'
    then (e, help, record s { configfile = copy 256 optarg })
    else if c == b'd'
    then (minus_one, help, s)
    else if c == b'f'
    then (e, help, record s { foreground_mode = pos 1 })
    else if c == b'a'
    then (e, help, record s { bind_addr = copy 64 optarg })
    else if c == b'p'
    then (e, help, record s { bind_port = to_uint (atoi optarg) })
    else if c == b'u'
    then (e, help, record s { user = copy 64 optarg })
    else if c == b'?' || c == b':'
    then (minus_one, help, s)
    else (e, help, s)

unfoldable pub process_options : List (ℕ × Bytes) → ℤ × Bool × Settings → ℤ × Bool × Settings
process_options [] st = st
process_options (o ∷ os) st = process_options os (process_option o st)

-- `left_over` is `optind < argc`. The help screen is printed only.
unfoldable pub process_command_line : List (ℕ × Bytes) → Bool → Settings → ℤ × Settings
process_command_line os left_over s =
    let (e, help, s') = process_options os (pos 0, false, s) in
    (if left_over || help then minus_one else e, s')

unfoldable pub set_default_settings : Settings → ℤ × Settings
set_default_settings s = (
  pos 0,
  record {
    bind_port = if s.bind_port == unset_int then 5005 else s.bind_port;
    bind_addr = if is_unset s.bind_addr then strncpy 64 (codes "127.0.0.1") else s.bind_addr;
    configfile = s.configfile;
    user = if is_unset s.user then strncpy 64 (codes "nobody") else s.user;
    foreground_mode = if eqb_ℤ s.foreground_mode minus_one then pos 0 else s.foreground_mode;
  },
)

-- `sysconfdir` is a constant of the build.
unfoldable pub with_configfile : Bytes → Settings → Settings
with_configfile sysconfdir s = record s {
  configfile =
      if is_unset s.configfile then strncpy 256 (sysconfdir ++ codes "/SCEd.cfg") else s.configfile;
}

module _ (L : Libconfig) where
  -- What follows once the file has been read. `high` is the upper half of a long that is not set.
  unfoldable pub take_settings : ℤ → Option L.Config → Settings → Settings
  take_settings high config s = record {
    bind_addr =
        if is_unset s.bind_addr
        then strncpy 64
            (xconfig_get_string L config (codes "Server") (codes "BindAddress") unset_str)
        else s.bind_addr;
    bind_port =
        if s.bind_port == unset_int
        then to_uint (xconfig_get_int L high config (codes "Server") (codes "BindPort") minus_one)
        else s.bind_port;
    configfile = s.configfile;
    user =
        if is_unset s.user
        then strncpy 64 (xconfig_get_string L config (codes "Server") (codes "User") unset_str)
        else s.user;
    foreground_mode =
        if eqb_ℤ s.foreground_mode minus_one
        then xconfig_get_bool L config (codes "Server") (codes "Foreground") minus_one
        else s.foreground_mode;
  }

  unfoldable pub process_configfile :
      (Bytes → Option L.Config)
      → ℤ
      → Bytes
      → Option L.Config
      → Settings
      → ℤ × Settings × Option L.Config
  process_configfile read high filename config s =
      let (status, config') = xconfig_read_file L read filename config in
      if eqb_ℤ status (pos 0)
      then (pos 0, take_settings high config' s, config')
      else (minus_one, s, config')

  -- `process_configfile` with the name in its buffer, and `set_default_settings`. It is none where
  -- the name does not end in the buffer.
  unfoldable pub configure :
      (Bytes → Option L.Config)
      → ℤ
      → Option Bytes
      → Option L.Config
      → Settings
      → Option (ℤ × Settings × Option L.Config)
  configure read high none config s = none
  configure read high (some filename) config s =
      let (e, s1, config') = process_configfile read high filename config s in
      if is_neg e
      then some (e, s1, config')
      else (let (e1, s2) = set_default_settings s1 in some (e1, s2, config'))

  -- The lines of `main` and of `do_reload` from `process_command_line` on.
  unfoldable pub read_settings :
      (Bytes → Option L.Config)
      → ℤ
      → Bytes
      → List (ℕ × Bytes)
      → Bool
      → Option L.Config
      → Settings
      → Option (ℤ × Settings × Option L.Config)
  read_settings read high sysconfdir os left_over config s =
      let (e, s1) = process_command_line os left_over s in
      let s2 = with_configfile sysconfdir s1 in
      if is_neg e
      then some (e, s2, config)
      else configure read high (text_in s2.configfile) config s2

  -- The lines of `main` before `init_reporting`, with `optind` then. `optind` is 1 at first.
  unfoldable pub start :
      Getopt
      → (Bytes → Option L.Config)
      → ℤ
      → Bytes
      → List Bytes
      → Option (ℤ × Settings × Option L.Config) × ℕ
  start G read high sysconfdir argv =
      let (os, optind) = G.calls argv 1 in
      (read_settings read high sysconfdir os (ltb optind (length argv)) none clear_settings, optind)

  -- `CHAIN(e, init_sce())`
  abbrev pub then_load :
      ℤ → Option (ℤ × Settings × Option L.Config) → Option (ℤ × Settings × Option L.Config)
  then_load sce_status none = none
  then_load sce_status (some (e, s, config)) = some (if is_neg e then e else sce_status, s, config)

  -- `init_sce` gives `sce_status`. The program ends where the result is negative.
  unfoldable pub do_reload :
      Getopt
      → (Bytes → Option L.Config)
      → ℤ
      → Bytes
      → List Bytes
      → ℤ
      → ℕ
      → Option L.Config
      → Option (ℤ × Settings × Option L.Config)
  do_reload G read high sysconfdir argv sce_status optind config =
      let (os, optind') = G.calls argv optind in
      then_load sce_status (
        read_settings read high sysconfdir os (ltb optind' (length argv)) (xconfig_clear L config)
          clear_settings)
