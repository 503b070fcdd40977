-- ===== src/Options/Failing.antt =====
-- A setter that fails changes nothing.
use secoli_sced.Action.{pure, bind, ◌>>=◌}
use secoli_sced.Base.{
  Bytes, ℕ, ◌≡◌, refl, Bool, true, false, not, Option, none, some, if◌then◌else◌, ℤ, pos, negsuc,
  minus_one, eqb_ℤ, is_neg,
}
use secoli_sced.Client.{
  Client, client_set_field_delimiter, client_set_output_enc, client_set_output_handler,
  client_set_timeout,
}
use secoli_sced.Options.Setters.{
  store_client, client_identity_option_setter, cod_state_option_setter, elapsed_time_option_setter,
  field_delimiter_option_setter, logging_option_setter, memory_consumption_option_setter,
  output_enc_option_setter, output_handler_option_setter, province_option_setter,
  search_constraint_option_setter, server_identity_option_setter,
  territorial_competence_option_setter, timeout_option_setter,
}
use secoli_sced.Sce.{sce_validate_cod_state}
use secoli_sced.Zipcode.{cod_state_unset}
use secoli_sced.Options.{meets, scope_client}
use secoli_sced.Options.Table.{
  OptionName, client_identity, cod_state, elapsed_time, field_delimiter, logging,
  memory_consumption, output_enc, output_handler, province, search_constraint, server_identity,
  territorial_competence, timeout, setter_of, option_set,
}
use secoli_sced.Search.{
  Glib, refresh_internal_state, search_set_cod_state, search_set_province,
  search_set_territorial_competence,
}
use secoli_sced.Session.{
  Session, session_set_cod_state, session_set_province, session_set_territorial_competence,
}
use secoli_sced.User.{User}
use secoli_sced.Utils.{string_to_boolean}
use secoli_sced.World.Kept.{Ends}
use secoli_sced.World.{World, Host, SessionArg, Do}
use secoli_sced.Xsqlite.{Sqlite}
use secoli_sced.Options.Clean.{
  FailsClean, clean, gets-IsReader, is_null-IsReader, pure-FailsClean, if-FailsClean,
  bind-FailsClean, store-FailsClean, write_scope-FailsClean,
}

module _ {G : Glib} where
  cod_state_clean :
      (t : Option (Session G)) (v : ℤ)
      → is_neg (session_set_cod_state G t v).0 ≡ true
      → (session_set_cod_state G t v).1 ≡ t
  unfolding session_set_cod_state
  cod_state_clean none v n = refl
  cod_state_clean (some t) v n = cc n

  province_clean :
      (t : Option (Session G)) (v : Bytes)
      → is_neg (session_set_province G t v).0 ≡ true
      → (session_set_province G t v).1 ≡ t
  unfolding session_set_province
  province_clean none v n = refl
  province_clean (some t) v n = cc n

  competence_clean :
      (t : Option (Session G)) (v : Bool)
      → is_neg (session_set_territorial_competence G t v).0 ≡ true
      → (session_set_territorial_competence G t v).1 ≡ t
  unfolding session_set_territorial_competence
  competence_clean none v n = refl
  competence_clean (some t) v n = cc n

module _ (S : Sqlite) (G : Glib) (H : Host G) where
  cod_state-FailsClean :
      (v : Bytes) (s : SessionArg G) (scope : ℕ)
      → FailsClean S G (cod_state_option_setter S G H v s scope)
  unfolding cod_state_option_setter search_set_cod_state refresh_internal_state
  cod_state-FailsClean v s scope =
      let z = sce_validate_cod_state (some v) in
      bind-FailsClean S G _ _ (is_null-IsReader S G s) λ missing.
        if-FailsClean S G missing _ _ (pure-FailsClean S G minus_one) (
          if-FailsClean S G (eqb_ℤ z cod_state_unset) _ _ (pure-FailsClean S G minus_one) (
            write_scope-FailsClean S G H s scope (λ t. session_set_cod_state G t z)
              (λ q. search_set_cod_state G q z) (λ t. cod_state_clean t z) (λ q. refl)))

  province-FailsClean :
      (v : Bytes) (s : SessionArg G) (scope : ℕ)
      → FailsClean S G (province_option_setter S G H v s scope)
  unfolding province_option_setter search_set_province refresh_internal_state
  province-FailsClean v s scope = bind-FailsClean S G _ _ (is_null-IsReader S G s) λ missing.
      if-FailsClean S G missing _ _ (pure-FailsClean S G minus_one) (
        write_scope-FailsClean S G H s scope (λ t. session_set_province G t v)
          (λ q. search_set_province G q v) (λ t. province_clean t v) (λ q. refl))

  competence-FailsClean :
      (v : Bytes) (s : SessionArg G) (scope : ℕ)
      → FailsClean S G (territorial_competence_option_setter S G H v s scope)
  unfolding territorial_competence_option_setter search_set_territorial_competence
      refresh_internal_state
  competence-FailsClean v s scope =
      let b = string_to_boolean v in
      bind-FailsClean S G _ _ (is_null-IsReader S G s) λ missing.
        if-FailsClean S G missing _ _ (pure-FailsClean S G minus_one) (
          if-FailsClean S G (not b) _ _ (pure-FailsClean S G minus_one) (
            write_scope-FailsClean S G H s scope (λ t. session_set_territorial_competence G t b)
              (λ q. search_set_territorial_competence G q b) (λ t. competence_clean t b)
              (λ q. refl)))

  field_delimiter-FailsClean :
      (v : Bytes) (s : SessionArg G) (scope : ℕ)
      → FailsClean S G (field_delimiter_option_setter S G H v s scope)
  unfolding field_delimiter_option_setter client_set_field_delimiter
  field_delimiter-FailsClean v s scope = search (clean, store-FailsClean)

  output_enc-FailsClean :
      (v : Bytes) (s : SessionArg G) (scope : ℕ)
      → FailsClean S G (output_enc_option_setter S G H v s scope)
  unfolding output_enc_option_setter client_set_output_enc
  output_enc-FailsClean v s scope = search (clean, store-FailsClean)

  output_handler-FailsClean :
      (v : Bytes) (s : SessionArg G) (scope : ℕ)
      → FailsClean S G (output_handler_option_setter S G H v s scope)
  unfolding output_handler_option_setter client_set_output_handler
  output_handler-FailsClean v s scope = search (clean, store-FailsClean) depth 14

  timeout_set :
      (u : Option User) (b : Bool) (c c' : Client G)
      → FailsClean S G (
          store_client S G H
            (pos 0, elim u [ some u' ↦ some c' | none ↦ if b then some c' else some c ]))
  timeout_set (some u) b c c' = store-FailsClean S G H c' (pos 0) refl
  timeout_set none true c c' = store-FailsClean S G H c' (pos 0) refl
  timeout_set none false c c' = store-FailsClean S G H c (pos 0) refl

  timeout-FailsClean :
      (v : Bytes) (s : SessionArg G) (scope : ℕ)
      → FailsClean S G (timeout_option_setter S G H v s scope)
  unfolding timeout_option_setter client_set_timeout
  timeout-FailsClean v s scope = bind-FailsClean S G _ _ (gets-IsReader S G _) λ c.
      if-FailsClean S G (meets scope scope_client) _ _ (timeout_set _ _ _ _)
        (pure-FailsClean S G minus_one)

  setter_of-FailsClean :
      (name : OptionName) (v : Bytes) (s : SessionArg G) (scope : ℕ)
      → FailsClean S G (setter_of S G H name v s scope)
  unfolding setter_of client_identity_option_setter elapsed_time_option_setter logging_option_setter
      memory_consumption_option_setter search_constraint_option_setter server_identity_option_setter
  setter_of-FailsClean client_identity v s scope = pure-FailsClean S G minus_one
  setter_of-FailsClean cod_state v s scope = cod_state-FailsClean v s scope
  setter_of-FailsClean elapsed_time v s scope = pure-FailsClean S G minus_one
  setter_of-FailsClean field_delimiter v s scope = field_delimiter-FailsClean v s scope
  setter_of-FailsClean logging v s scope = pure-FailsClean S G minus_one
  setter_of-FailsClean memory_consumption v s scope = pure-FailsClean S G minus_one
  setter_of-FailsClean output_enc v s scope = output_enc-FailsClean v s scope
  setter_of-FailsClean output_handler v s scope = output_handler-FailsClean v s scope
  setter_of-FailsClean province v s scope = province-FailsClean v s scope
  setter_of-FailsClean search_constraint v s scope = pure-FailsClean S G (pos 0)
  setter_of-FailsClean server_identity v s scope = pure-FailsClean S G minus_one
  setter_of-FailsClean territorial_competence v s scope = competence-FailsClean v s scope
  setter_of-FailsClean timeout v s scope = timeout-FailsClean v s scope

  abbrev in_short : ℤ → ℤ
  in_short status = if is_neg status then minus_one else pos 0

  in_short_neg : (a : ℤ) → is_neg (in_short a) ≡ true → is_neg a ≡ true
  in_short_neg (pos n) e = cc e
  in_short_neg (negsuc n) e = refl

  in_short-FailsClean :
      (m : Do S G ℤ) → FailsClean S G m → FailsClean S G (m >>= λ status. pure (in_short status))
  unfolding ◌>>=◌
  in_short-FailsClean m h = record { at = λ w. go w (m w) (h.at w) }
    where
      go :
          (w : World G S) (r : Option (ℤ × World G S))
          → Ends S G (λ a w'. is_neg a ≡ true → w' ≡ w) r
          → Ends S G (λ a w'. is_neg a ≡ true → w' ≡ w) (bind r (λ status. pure (in_short status)))
      go w none h = tt
      go w (some (a, w')) h = λ n. h (in_short_neg a n)

  option_set-FailsClean :
      (cmd value : Bytes) (s : SessionArg G) (scope : ℕ)
      → FailsClean S G (option_set S G H cmd value s scope)
  unfolding option_set
  option_set-FailsClean cmd value s scope =
      search (clean, in_short-FailsClean, setter_of-FailsClean) depth 14

  -- Where `option_set` fails, for whatever reason, it leaves the client, its session and all
  -- else as they were.
  pub option_set-unchanged :
      (cmd value : Bytes) (s : SessionArg G) (scope : ℕ) (w w' : World G S)
      → option_set S G H cmd value s scope w ≡ some (minus_one, w')
      → w' ≡ w
  option_set-unchanged cmd value s scope w w' e =
      rw e at ((option_set-FailsClean cmd value s scope).at w) refl
