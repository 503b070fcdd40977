-- ===== src/Options/Access.antt =====
-- What SHOW gives behind a SET.
use secoli_sced.Action.{unless_null, ◌>>=◌}
use secoli_sced.Base.{Bytes, codes, ℕ, ◌≡◌, some, ℤ, pos, arith, take, str_eq}
use secoli_sced.Clib.{decimal, decimal_int}
use secoli_sced.Options.Setters.{cod_state_option_setter}
use secoli_sced.Options.Table.{option_get, option_set}
use secoli_sced.Options.{cod_state_option_getter, scope_session, scope_any}
use secoli_sced.Sce.{sce_validate_cod_state}
use secoli_sced.Search.{Glib}
use secoli_sced.Session.{Session, session_set_cod_state, session_get_cod_state}
use secoli_sced.World.{World, Host, of_client, session_of, set_session, is_null}
use secoli_sced.Xsqlite.{Sqlite}

module _ (S : Sqlite) (G : Glib) (H : Host G) where
  unfoldable pub with_cod_state : World G S → Session G → ℤ → World G S
  with_cod_state w t z = record w {
    client = record w.client { default_session = some (record t { cod_state = z }) };
  }

  pub set_cod_state :
      (w : World G S) (t : Session G) (n : ℕ) (text : Bytes)
      → w.client.default_session ≡ some t
      → sce_validate_cod_state (some text) ≡ pos n
      → option_set S G H (codes "COD_STATE") text of_client scope_session w
        ≡ some (pos 0, with_cod_state w t (pos n))
  unfolding option_set ◌>>=◌ cod_state_option_setter is_null session_of set_session
      session_set_cod_state with_cod_state unless_null str_eq
  set_cod_state w t n text e v = rw (v, e) (ground arith)

  pub get_cod_state :
      (w : World G S) (t : Session G) (n : ℕ)
      → option_get S G H (codes "COD_STATE") of_client scope_any (with_cod_state w t (pos n))
        ≡ some (some (take 3 (decimal n)), with_cod_state w t (pos n))
  unfolding option_get ◌>>=◌ cod_state_option_getter is_null session_of session_get_cod_state
      with_cod_state unless_null str_eq decimal_int
  get_cod_state w t n = ground arith
