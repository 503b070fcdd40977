-- ===== src/Options.antt =====
-- src/options.c: the options, with a getter and a setter each. `Session *s` is a SessionArg, and a
-- function that touches more than its arguments is an action.
pub mod Table
pub mod Setters
pub mod Keeping
pub mod Access
pub mod Clean
pub mod Failing
use secoli_sced.Action.{Action, unless_null, pure, fault, gets, modify, ◌>>=◌, ◌>>◌}
use secoli_sced.Base.{
  Bytes, codes, ℕ, ◌^◌, ◌-◌, Bool, true, false, not, ◌||◌, Option, none, some, if◌then◌else◌, ◌==◌,
  ℤ, pos, negsuc, minus_one, eqb_ℤ,
}
use Prim.Native.Nat.{bit_and}
use secoli_sced.Base.{◌++◌}
use secoli_sced.Client.{
  Client, client_get_field_delimiter, client_get_user, client_get_output_enc, client_get_timeout,
  client_get_output_handler,
}
use secoli_sced.Clib.{decimal, decimal_int, snprintf}
use secoli_sced.Encoder.{encoder_get_output_charset}
use secoli_sced.Output.{output_get_handler_description}
use secoli_sced.Search.{Search, Glib, search_get_cod_state, search_get_province}
use secoli_sced.Session.{
  Session, session_get_cod_state, session_get_province, session_get_territorial_competence,
  session_get_search,
}
use secoli_sced.Utils.{boolean_to_string}
use secoli_sced.World.{World, Host, MemoryStatus, SessionArg, Do, client_of, session_of, is_null}
use secoli_sced.Xsqlite.{Sqlite}
use secoli_sced.Zipcode.{cod_state_unset}

-- OPTION_SCOPE_…
abbrev pub scope_search : ℕ
scope_search = 1

abbrev pub scope_session : ℕ
scope_session = 2

abbrev pub scope_client : ℕ
scope_client = 4

abbrev pub scope_any : ℕ
scope_any = 255

-- `a & b` as a condition
abbrev pub meets : ℕ → ℕ → Bool
meets a b = not (bit_and a b == 0)

-- `%lu` of a long
abbrev pub decimal_ulong : ℤ → Bytes
decimal_ulong (pos n) = decimal n
decimal_ulong (negsuc n) = decimal (2 ^ 64 - 1 - n)

-- `!client_get_user(c)`
abbrev pub is_anonymous : {G : Glib} → Client G → Bool
is_anonymous {G} c = elim (client_get_user G (some c)) [ none ↦ true | some u ↦ false ]

module _ (S : Sqlite) (G : Glib) (H : Host G) where
  abbrev pub OptionGetter : Type 0
  OptionGetter = SessionArg G → ℕ → Bool → Do S G (Option Bytes)

  -- The session's value in the scope of sessions, and its search's in that of searches.
  abbrev pub read_scope :
      SessionArg G
      → ℕ
      → (Session G → Option Bytes)
      → (Search G → Do S G (Option Bytes))
      → Do S G (Option Bytes)
  read_scope s scope from_session from_search = is_null S G s >>= λ missing.
      if missing
      then pure none
      else (if meets scope scope_session
          then (session_of S G s >>= λ t. unless_null t (pure none) (λ t'. pure (from_session t')))
          else if meets scope scope_search
          then (session_of S G s >>= λ t.
              unless_null (session_get_search G t) (pure none) (λ q. from_search q))
          else pure none)

  unfoldable pub client_identity_option_getter : OptionGetter
  client_identity_option_getter s scope within_list = pure (some H.client_identity)

  abbrev cod_state_text : ℤ → Option Bytes
  cod_state_text cod_state =
      if eqb_ℤ cod_state cod_state_unset then none else some (snprintf 4 (decimal_int cod_state))

  unfoldable pub cod_state_option_getter : OptionGetter
  unfolding session_of is_null
  cod_state_option_getter s scope within_list =
      read_scope s scope (λ t. cod_state_text (session_get_cod_state G (some t)))
        (λ q. pure (cod_state_text (search_get_cod_state G (some q))))

  unfoldable pub elapsed_time_option_getter : OptionGetter
  elapsed_time_option_getter s scope within_list =
      client_of S G >>= λ c. pure (some (snprintf 16 (decimal_ulong c.elapsed_time)))

  unfoldable pub field_delimiter_option_getter : OptionGetter
  field_delimiter_option_getter s scope within_list =
      client_of S G >>= λ c. pure (client_get_field_delimiter G (some c))

  unfoldable pub logging_option_getter : OptionGetter
  logging_option_getter s scope within_list = pure none

  abbrev memory_text : MemoryStatus → Bytes
  memory_text m =
      codes "MALLOC_ARENA "
      ++ (decimal_int H.arena
          ++ (codes "\nTOTAL_PROGRAM_SIZE "
              ++ (decimal m.size
                  ++ (codes "\nRESIDENT_SET_SIZE "
                      ++ (decimal m.resident
                          ++ (codes "\nSHARED_PAGES "
                              ++ (decimal m.shared
                                  ++ (codes "\nTEXT_SIZE "
                                      ++ (decimal m.text_size
                                          ++ (codes "\nDATA_AND_STACK "
                                              ++ (decimal m.data_size
                                                  ++ (codes "\nSQLITE_USED_MEMORY "
                                                      ++ decimal_int H.sqlite_memory))))))))))))

  unfoldable pub memory_consumption_option_getter : OptionGetter
  memory_consumption_option_getter s scope within_list = client_of S G >>= λ c.
      if within_list || is_anonymous c
      then pure (some (snprintf 128 (decimal_int H.arena)))
      else pure
          (elim H.memory_status [ none ↦ none | some m ↦ some (snprintf 4096 (memory_text m)) ])

  unfoldable pub output_enc_option_getter : OptionGetter
  output_enc_option_getter s scope within_list = client_of S G >>= λ c.
      pure (encoder_get_output_charset H.iconv (client_get_output_enc G (some c)))

  unfoldable pub output_handler_option_getter : OptionGetter
  output_handler_option_getter s scope within_list = client_of S G >>= λ c.
      pure (output_get_handler_description (client_get_output_handler G (some c)))

  unfoldable pub province_option_getter : OptionGetter
  unfolding session_of is_null
  province_option_getter s scope within_list =
      read_scope s scope (λ t. session_get_province G (some t))
        (λ q. pure (search_get_province G (some q)))

  unfoldable pub search_constraint_option_getter : OptionGetter
  search_constraint_option_getter s scope within_list = pure none

  unfoldable pub server_identity_option_getter : OptionGetter
  server_identity_option_getter s scope within_list = pure (some H.server_identity)

  -- In the scope of searches a session is read as if it were a search, which is longer.
  unfoldable pub territorial_competence_option_getter : OptionGetter
  unfolding session_of is_null
  territorial_competence_option_getter s scope within_list =
      read_scope s scope
        (λ t. some (boolean_to_string (session_get_territorial_competence G (some t)))) (λ q. fault)

  unfoldable pub timeout_option_getter : OptionGetter
  timeout_option_getter s scope within_list = client_of S G >>= λ c. pure (
      if meets scope scope_client
      then some (snprintf 16 (decimal_int (client_get_timeout G (some c))))
      else none)
