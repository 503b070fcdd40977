-- ===== src/Settings/Tests.antt =====
-- A command line and a configuration file, and the theorems at them.
use secoli_sced.Base.{
  false, Bytes, codes, ℕ, ◌≡◌, refl, List, [], ◌∷◌, Option, none, some, pos, ◌==◌, if◌then◌else◌,
  str_eq, arith,
}
use secoli_sced.Clib.{atoi, is_space, is_digit, scan}
use secoli_sced.Settings.Sources.{IsRead}
use secoli_sced.Settings.Starting.{start-IsRead, do_reload-IsRead}
use secoli_sced.Settings.{
  Settings, Getopt, has_dashes, strncpy, start, do_reload, read_settings, clear_settings,
  with_configfile, process_command_line, process_options, process_option, copy, is_unset, text_in,
  configure, process_configfile, take_settings, set_default_settings,
}
use secoli_sced.Xconfig.{
  Libconfig, xconfig_read_file, xconfig_clear, xconfig_get_string, xconfig_get_bool,
  xconfig_get_int, to_short, with_low,
}

-- One group, with an address in it.
abbrev libconfig : Libconfig
libconfig = record {
  Config = Unit {0};
  Setting = Unit {0};
  Double = Unit {0};
  config_lookup = λ c path. some tt;
  config_setting_lookup_string =
      λ s key. if str_eq key (codes "BindAddress") then some (codes "10.0.0.1") else none;
  config_setting_lookup_bool = λ s key. none;
  config_setting_lookup_int = λ s key. none;
  config_setting_lookup_int64 = λ s key. none;
  config_setting_lookup_float = λ s key. none;
}

-- The option -p 6000, once.
abbrev calls : List Bytes → ℕ → List (ℕ × Bytes) × ℕ
calls argv i = if i == 1 then ((b'p', codes "6000") ∷ [], 3) else ([], i)

calls-again :
    (argv : List Bytes) (i : ℕ)
    → has_dashes argv ≡ false
    → calls argv (calls argv i).1 ≡ ([], (calls argv i).1)
calls-again argv i n = ground arith

abbrev getopt : Getopt
getopt = record { calls = calls; calls-again = calls-again }

abbrev argv : List Bytes
argv = codes "SCEd" ∷ codes "-p" ∷ codes "6000" ∷ []

abbrev read : Bytes → Option (Unit {0})
read name = some tt

abbrev settings : ℕ → Settings
settings port = record {
  bind_port = port;
  bind_addr = strncpy 64 (codes "10.0.0.1");
  configfile = strncpy 256 (codes "/etc/SCEd.cfg");
  user = strncpy 64 (codes "nobody");
  foreground_mode = pos 0;
}

start_run :
    (start libconfig getopt read (pos 0) (codes "/etc") argv).0
    ≡ some (pos 0, settings 6000, some tt)
unfolding start read_settings clear_settings with_configfile process_command_line process_options
    process_option copy strncpy is_unset text_in configure process_configfile take_settings
    set_default_settings xconfig_read_file xconfig_get_string xconfig_get_bool xconfig_get_int
    is_space is_digit scan to_short with_low str_eq atoi
start_run = refl

start-IsRead_example :
    IsRead libconfig read
      (pos 0)
      (codes "/etc")
      ((b'p', codes "6000") ∷ [])
      (some tt)
      (settings 6000)
start-IsRead_example =
    start-IsRead libconfig getopt read (pos 0) (codes "/etc") argv (settings 6000) (some tt)
      start_run

no_dashes : has_dashes argv ≡ false
unfolding has_dashes str_eq
no_dashes = refl

reload_run :
    do_reload libconfig getopt read
      (pos 0)
      (codes "/etc")
      argv
      (pos 0)
      (start libconfig getopt read (pos 0) (codes "/etc") argv).1
      (some tt)
    ≡ some (pos 0, settings 5005, some tt)
unfolding start do_reload read_settings clear_settings with_configfile process_command_line
    process_options process_option copy strncpy is_unset text_in configure process_configfile
    take_settings set_default_settings xconfig_read_file xconfig_clear xconfig_get_string
    xconfig_get_bool xconfig_get_int to_short with_low str_eq
reload_run = refl

do_reload-IsRead_example : IsRead libconfig read (pos 0) (codes "/etc") [] (some tt) (settings 5005)
do_reload-IsRead_example =
    do_reload-IsRead libconfig getopt read (pos 0) (codes "/etc") argv (pos 0) (settings 5005)
      (some tt) (some tt) no_dashes reload_run
