-- ===== src/Options/Setters.antt =====
-- src/options.c: the setters. The client is not NULL and `value` is not NULL, which `option_set`
-- tests.
use secoli_sced.Action.{unless_null, pure, ◌>>=◌, ◌>>◌}
use secoli_sced.Base.{
  Bytes, ℕ, not, Option, none, some, if◌then◌else◌, ℤ, pos, minus_one, eqb_ℤ, is_neg,
}
use secoli_sced.Client.{
  Client, client_set_field_delimiter, client_get_output_enc, client_set_output_enc,
  client_get_output_handler, client_set_output_handler, client_set_timeout,
}
use secoli_sced.Clib.{atoi}
use secoli_sced.Encoder.{encoder_set_output_charset}
use secoli_sced.Options.{meets, scope_search, scope_session, scope_client}
use secoli_sced.Output.{output_create_handler, output_close_handler}
use secoli_sced.Sce.{sce_validate_cod_state}
use secoli_sced.Search.{
  Search, Glib, search_set_cod_state, search_set_province, search_set_territorial_competence,
}
use secoli_sced.Session.{
  Session, session_set_cod_state, session_set_province, session_set_territorial_competence,
  session_get_search,
}
use secoli_sced.Utils.{string_to_boolean}
use secoli_sced.World.{
  Host, SessionArg, Do, client_of, set_client, session_of, set_session, is_null,
}
use secoli_sced.Xsqlite.{Sqlite}
use secoli_sced.Zipcode.{cod_state_unset}

module _ (S : Sqlite) (G : Glib) (H : Host G) where
  abbrev pub OptionSetter : Type 0
  OptionSetter = Bytes → SessionArg G → ℕ → Do S G ℤ

  -- What the setters return that only say no.
  abbrev refuse : OptionSetter
  refuse value s scope = pure minus_one

  abbrev pub store_client : ℤ × Option (Client G) → Do S G ℤ
  store_client (status, none) = pure status
  store_client (status, some c) = set_client S G c >> pure status

  -- The setter of the session in the scope of sessions, and of its search in that of searches.
  abbrev pub write_scope :
      SessionArg G
      → ℕ
      → (Option (Session G) → ℤ × Option (Session G))
      → (Option (Search G) → ℤ × Option (Search G))
      → Do S G ℤ
  write_scope s scope in_session in_search =
      if meets scope scope_session
      then (session_of S G s >>= λ t. set_session S G s (in_session t).1 >> pure (in_session t).0)
      else if meets scope scope_search
      then (session_of S G s >>= λ t. unless_null t (pure minus_one) (λ t'.
          (unless_null (session_get_search G (some t')) (pure minus_one) (λ q.
            set_session S G s (some (record t' { search_of = (in_search (some q)).1 }))
            >> pure (in_search (some q)).0))))
      else pure minus_one

  unfoldable pub client_identity_option_setter : OptionSetter
  client_identity_option_setter = refuse

  unfoldable pub cod_state_option_setter : OptionSetter
  unfolding session_of set_session is_null
  cod_state_option_setter value s scope = is_null S G s >>= λ missing.
      if missing
      then pure minus_one
      else (let cod_state = sce_validate_cod_state (some value) in
          if eqb_ℤ cod_state cod_state_unset
          then pure minus_one
          else write_scope s scope (λ t. session_set_cod_state G t cod_state)
              (λ q. search_set_cod_state G q cod_state))

  unfoldable pub elapsed_time_option_setter : OptionSetter
  elapsed_time_option_setter = refuse

  unfoldable pub field_delimiter_option_setter : OptionSetter
  field_delimiter_option_setter value s scope =
      client_of S G >>= λ c. store_client (client_set_field_delimiter G (some c) (some value))

  unfoldable pub logging_option_setter : OptionSetter
  logging_option_setter = refuse

  unfoldable pub memory_consumption_option_setter : OptionSetter
  memory_consumption_option_setter = refuse

  unfoldable pub output_enc_option_setter : OptionSetter
  output_enc_option_setter value s scope = client_of S G >>= λ c.
      unless_null
        (encoder_set_output_charset H.iconv H.encoder_memory (client_get_output_enc G (some c))
          value)
        (pure minus_one) (λ enc. store_client (client_set_output_enc G (some c) (some enc)))

  unfoldable pub output_handler_option_setter : OptionSetter
  output_handler_option_setter value s scope = client_of S G >>= λ c.
      unless_null (client_get_output_handler G (some c)) (pure minus_one) (λ oh.
        (unless_null (output_create_handler H.handler_memory (some value)) (pure minus_one) (λ new.
          if is_neg (output_close_handler (some oh)).0
          then pure minus_one
          else store_client (client_set_output_handler G (some c) (some new)))))

  unfoldable pub province_option_setter : OptionSetter
  unfolding session_of set_session is_null
  province_option_setter value s scope = is_null S G s >>= λ missing.
      if missing
      then pure minus_one
      else write_scope s scope (λ t. session_set_province G t value)
          (λ q. search_set_province G q value)

  unfoldable pub search_constraint_option_setter : OptionSetter
  search_constraint_option_setter value s scope = pure (pos 0)

  unfoldable pub server_identity_option_setter : OptionSetter
  server_identity_option_setter = refuse

  unfoldable pub territorial_competence_option_setter : OptionSetter
  unfolding session_of set_session is_null
  territorial_competence_option_setter value s scope = is_null S G s >>= λ missing.
      if missing
      then pure minus_one
      else (let territorial_competence = string_to_boolean value in
          if not territorial_competence
          then pure minus_one
          else write_scope s scope
              (λ t. session_set_territorial_competence G t territorial_competence)
              (λ q. search_set_territorial_competence G q territorial_competence))

  unfoldable pub timeout_option_setter : OptionSetter
  timeout_option_setter value s scope = client_of S G >>= λ c.
      if meets scope scope_client
      then store_client (client_set_timeout G H.overflow (some c) (atoi value))
      else pure minus_one
