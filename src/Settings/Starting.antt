-- ===== src/Settings/Starting.antt =====
-- The settings at the start, and those after a reload.
use secoli_sced.Base.{
  false, Bytes, ◌≡◌, refl, ◌∙◌, Bool-cases, inl, inr, List, [], Option, none, some, ltb, length, ℤ,
  pos, is_neg, arith,
}
use secoli_sced.Settings.Sources.{IsRead, read_settings-IsRead}
use secoli_sced.Settings.{
  Settings, Getopt, has_dashes, clear_settings, read_settings, start, then_load, do_reload,
}
use secoli_sced.Xconfig.{Libconfig, xconfig_clear}

module _ (L : Libconfig) (G : Getopt) (read : Bytes → Option L.Config) (high : ℤ)
    (sysconfdir : Bytes) where
  -- When the daemon starts without an error, the file that it has read is the one of the last -c, or
  -- else SCEd.cfg of SYSCONFDIR, and each setting is the one of the last option for it, or else the
  -- one in the file, or else the default; the value that stands for unset counts as none.
  pub start-IsRead :
      (argv : List Bytes) (s : Settings) (config : Option L.Config)
      → (start L G read high sysconfdir argv).0 ≡ some (pos 0, s, config)
      → IsRead L read high sysconfdir (G.calls argv 1).0 config s
  unfolding start
  start-IsRead argv s config h =
      read_settings-IsRead L read high sysconfdir _ _ s config (pos 0) refl h

  -- A reload without an error, at the `optind` that the start has left, takes no setting from the
  -- command line: all are those of SCEd.cfg of SYSCONFDIR, or else the defaults. No argument is `--`.
  pub do_reload-IsRead :
      (argv : List Bytes) (sce_status : ℤ) (s : Settings) (config old : Option L.Config)
      → has_dashes argv ≡ false
      → do_reload L G read high sysconfdir argv sce_status
          (start L G read high sysconfdir argv).1
          old
        ≡ some (pos 0, s, config)
      → IsRead L read high sysconfdir [] config s
  unfolding start do_reload xconfig_clear
  do_reload-IsRead argv sce_status s config old n h = go r refl (rw (G.calls-again argv 1 n) at h)
    where
      r : Option (ℤ × Settings × Option L.Config)
      r =
          read_settings L read high sysconfdir [] (ltb (G.calls argv 1).1 (length argv)) none
            clear_settings

      go :
          (r' : Option (ℤ × Settings × Option L.Config))
          → r ≡ r'
          → then_load L sce_status r' ≡ some (pos 0, s, config)
          → IsRead L read high sysconfdir [] config s
      go none e k = cc k
      go (some (e', s', config')) e k = elim (Bool-cases (is_neg e')) [
        | inl n ↦ ground (arith, rw n at k)
        | inr n ↦
            let k' = rw n at k in
            read_settings-IsRead L read high sysconfdir [] _ s config e' n (e ∙ cc k')
      ]
