-- ===== src/Options/Keeping.antt =====
-- What the getters and setters of the options keep.
use secoli_sced.Action.{unless_null, pure, ◌>>=◌}
use secoli_sced.Base.{
  Bytes, ℕ, Bool, Option, none, some, if◌then◌else◌, ℤ, refl, pos, minus_one, is_neg, true, false,
  Bool-cases, inl, inr,
}
use secoli_sced.Encoder.{Encoder}
use secoli_sced.Output.{OutputHandler, output_close_handler}
use secoli_sced.User.{User}
use secoli_sced.Client.{
  client_set_field_delimiter, client_set_output_enc, client_set_output_handler, client_set_timeout,
}
use secoli_sced.Options.Setters.{
  store_client, client_identity_option_setter, cod_state_option_setter, elapsed_time_option_setter,
  field_delimiter_option_setter, logging_option_setter, memory_consumption_option_setter,
  output_enc_option_setter, output_handler_option_setter, province_option_setter,
  search_constraint_option_setter, server_identity_option_setter,
  territorial_competence_option_setter, timeout_option_setter,
}
use secoli_sced.Options.Table.{
  OptionName, client_identity, cod_state, elapsed_time, field_delimiter, logging,
  memory_consumption, output_enc, output_handler, province, search_constraint, server_identity,
  territorial_competence, timeout, getter_of, setter_of, option_get, option_set, options_list,
}
use secoli_sced.Options.{
  meets, scope_client, client_identity_option_getter, cod_state_option_getter,
  elapsed_time_option_getter, field_delimiter_option_getter, logging_option_getter,
  memory_consumption_option_getter, output_enc_option_getter, output_handler_option_getter,
  province_option_getter, search_constraint_option_getter, server_identity_option_getter,
  territorial_competence_option_getter, timeout_option_getter,
}
use secoli_sced.Search.{Glib}
use secoli_sced.World.Kept.{keeps, Kept, refl-Kept, Ends, IsKept, alike, set_client-Kept}
use secoli_sced.World.{World, Host, SessionArg}
use secoli_sced.Xsqlite.{Sqlite}

module _ (S : Sqlite) (G : Glib) (H : Host G) where
  getter_of-IsKept :
      (name : OptionName) (s : SessionArg G) (scope : ℕ) (within_list : Bool)
      → IsKept S G (getter_of S G H name s scope within_list)
  unfolding getter_of client_identity_option_getter cod_state_option_getter
      elapsed_time_option_getter field_delimiter_option_getter logging_option_getter
      memory_consumption_option_getter output_enc_option_getter output_handler_option_getter
      province_option_getter search_constraint_option_getter server_identity_option_getter
      territorial_competence_option_getter timeout_option_getter
  getter_of-IsKept client_identity s scope b = search keeps depth 14
  getter_of-IsKept cod_state s scope b = search keeps depth 14
  getter_of-IsKept elapsed_time s scope b = search keeps depth 14
  getter_of-IsKept field_delimiter s scope b = search keeps depth 14
  getter_of-IsKept logging s scope b = search keeps depth 14
  getter_of-IsKept memory_consumption s scope b = search keeps depth 14
  getter_of-IsKept output_enc s scope b = search keeps depth 14
  getter_of-IsKept output_handler s scope b = search keeps depth 14
  getter_of-IsKept province s scope b = search keeps depth 14
  getter_of-IsKept search_constraint s scope b = search keeps depth 14
  getter_of-IsKept server_identity s scope b = search keeps depth 14
  getter_of-IsKept territorial_competence s scope b = search keeps depth 14
  getter_of-IsKept timeout s scope b = search keeps depth 14

  pub option_get-IsKept :
      (cmd : Bytes) (s : SessionArg G) (scope : ℕ) → IsKept S G (option_get S G H cmd s scope)
  unfolding option_get
  option_get-IsKept cmd s scope = search (keeps, getter_of-IsKept) depth 14

  pub options_list-IsKept :
      (s : SessionArg G) (scope index : ℕ) → IsKept S G (options_list S G H s scope index)
  unfolding options_list
  options_list-IsKept s scope index = search (keeps, getter_of-IsKept) depth 14

  enc_kept :
      (w : World G S) (o : Option Encoder)
      → Ends S G
          (λ a w'. Kept S G w w')
          (unless_null o
            (pure minus_one)
            (λ enc. store_client S G H (client_set_output_enc G (some w.client) (some enc)))
            w)
  unfolding ◌>>=◌ unless_null client_set_output_enc
  enc_kept w none = refl-Kept S G w
  enc_kept w (some enc) = set_client-Kept S G w _ (alike refl refl refl)

  handler_kept :
      (w : World G S) (o n : Option OutputHandler)
      → Ends S G
          (λ a w'. Kept S G w w')
          (unless_null o
            (pure minus_one)
            (λ oh. unless_null n (pure minus_one) (λ new.
              if is_neg (output_close_handler (some oh)).0
              then pure minus_one
              else store_client S G H (client_set_output_handler G (some w.client) (some new))))
            w)
  unfolding ◌>>=◌ unless_null client_set_output_handler
  handler_kept w none n = refl-Kept S G w
  handler_kept w (some oh) none = refl-Kept S G w
  handler_kept w (some oh) (some new) =
      elim (Bool-cases (is_neg (output_close_handler (some oh)).0)) [
        | inl e ↦ rw e (refl-Kept S G w)
        | inr e ↦ rw e (set_client-Kept S G w _ (alike refl refl refl))
      ]

  timeout_kept :
      (w : World G S) (u : Option User) (b : Bool) (t : ℤ)
      → Ends S G
          (λ a w'. Kept S G w w')
          (store_client S G H
            (
              pos 0,
              elim u [
                | some u' ↦ some (record w.client { timeout = t })
                | none ↦ if b then some (record w.client { timeout = t }) else some w.client
              ],
            )
            w)
  unfolding ◌>>=◌
  timeout_kept w (some u) b t = set_client-Kept S G w _ (alike refl refl refl)
  timeout_kept w none true t = set_client-Kept S G w _ (alike refl refl refl)
  timeout_kept w none false t = set_client-Kept S G w _ (alike refl refl refl)

  field_delimiter-IsKept :
      (v : Bytes) (s : SessionArg G) (scope : ℕ)
      → IsKept S G (field_delimiter_option_setter S G H v s scope)
  unfolding field_delimiter_option_setter ◌>>=◌ client_set_field_delimiter
  field_delimiter-IsKept v s scope = record {
    at = λ w. set_client-Kept S G w _ (alike refl refl refl);
  }

  output_enc-IsKept :
      (v : Bytes) (s : SessionArg G) (scope : ℕ)
      → IsKept S G (output_enc_option_setter S G H v s scope)
  unfolding output_enc_option_setter ◌>>=◌
  output_enc-IsKept v s scope = record { at = λ w. enc_kept w _ }

  output_handler-IsKept :
      (v : Bytes) (s : SessionArg G) (scope : ℕ)
      → IsKept S G (output_handler_option_setter S G H v s scope)
  unfolding output_handler_option_setter ◌>>=◌
  output_handler-IsKept v s scope = record { at = λ w. handler_kept w _ _ }

  timeout-IsKept :
      (v : Bytes) (s : SessionArg G) (scope : ℕ)
      → IsKept S G (timeout_option_setter S G H v s scope)
  unfolding timeout_option_setter ◌>>=◌ client_set_timeout
  timeout-IsKept v s scope = record {
    at = λ w. elim (Bool-cases (meets scope scope_client)) [
      | inl e ↦ rw e (timeout_kept w _ _ _)
      | inr e ↦ rw e (refl-Kept S G w)
    ];
  }

  setter_of-IsKept :
      (name : OptionName) (value : Bytes) (s : SessionArg G) (scope : ℕ)
      → IsKept S G (setter_of S G H name value s scope)
  unfolding setter_of client_identity_option_setter cod_state_option_setter
      elapsed_time_option_setter logging_option_setter memory_consumption_option_setter
      province_option_setter search_constraint_option_setter server_identity_option_setter
      territorial_competence_option_setter
  setter_of-IsKept client_identity v s scope = search keeps depth 14
  setter_of-IsKept cod_state v s scope = search keeps depth 14
  setter_of-IsKept elapsed_time v s scope = search keeps depth 14
  setter_of-IsKept logging v s scope = search keeps depth 14
  setter_of-IsKept memory_consumption v s scope = search keeps depth 14
  setter_of-IsKept province v s scope = search keeps depth 14
  setter_of-IsKept search_constraint v s scope = search keeps depth 14
  setter_of-IsKept server_identity v s scope = search keeps depth 14
  setter_of-IsKept territorial_competence v s scope = search keeps depth 14
  setter_of-IsKept field_delimiter v s scope = field_delimiter-IsKept v s scope
  setter_of-IsKept output_enc v s scope = output_enc-IsKept v s scope
  setter_of-IsKept output_handler v s scope = output_handler-IsKept v s scope
  setter_of-IsKept timeout v s scope = timeout-IsKept v s scope

  pub option_set-IsKept :
      (cmd value : Bytes) (s : SessionArg G) (scope : ℕ)
      → IsKept S G (option_set S G H cmd value s scope)
  unfolding option_set
  option_set-IsKept cmd value s scope = search (keeps, setter_of-IsKept) depth 14
