-- ===== src/Options/Table.antt =====
-- src/options.c: the table of the options, and the calls that go through it.
use secoli_sced.Action.{unless_null, pure, ◌>>=◌}
use secoli_sced.Base.{
  Bytes, codes, ℕ, suc, ◌+◌, ◌-◌, true, false, ◌&&◌, List, [], ◌∷◌, ◌++◌, Option, none, some,
  if◌then◌else◌, length, get_elem?, str_eq, ℤ, pos, minus_one, is_neg,
}
use secoli_sced.Clib.{snprintf}
use secoli_sced.Options.Setters.{
  OptionSetter, client_identity_option_setter, cod_state_option_setter, elapsed_time_option_setter,
  field_delimiter_option_setter, logging_option_setter, memory_consumption_option_setter,
  output_enc_option_setter, output_handler_option_setter, province_option_setter,
  search_constraint_option_setter, server_identity_option_setter,
  territorial_competence_option_setter, timeout_option_setter,
}
use secoli_sced.Options.{
  OptionGetter, meets, is_anonymous, scope_client, scope_any, client_identity_option_getter,
  cod_state_option_getter, elapsed_time_option_getter, field_delimiter_option_getter,
  logging_option_getter, memory_consumption_option_getter, output_enc_option_getter,
  output_handler_option_getter, province_option_getter, search_constraint_option_getter,
  server_identity_option_getter, territorial_competence_option_getter, timeout_option_getter,
}
use secoli_sced.Search.{Glib}
use secoli_sced.World.{Host, SessionArg, Do, client_of}
use secoli_sced.Xsqlite.{Sqlite}

-- OPTION_RESTRICTION_…
abbrev pub restriction_none : ℕ
restriction_none = 0

abbrev pub restriction_writing : ℕ
restriction_writing = 1

abbrev pub restriction_reading : ℕ
restriction_reading = 2

-- OPTION_SCOPE_SEARCH | OPTION_SCOPE_SESSION
abbrev pub scope_both : ℕ
scope_both = 3

-- Which getter and setter stand in an entry.
pub data OptionName : Type 0 where
  client_identity cod_state elapsed_time field_delimiter logging memory_consumption : OptionName
  output_enc output_handler province search_constraint server_identity : OptionName
  territorial_competence timeout : OptionName

pub record OptionHandler : Type 0 where
  pub keyword : Bytes
  pub name : OptionName
  pub scope : ℕ
  pub restriction : ℕ

abbrev entry : Bytes → OptionName → ℕ → ℕ → OptionHandler
entry keyword name scope restriction = record {
  keyword = keyword;
  name = name;
  scope = scope;
  restriction = restriction;
}

unfoldable pub options : List OptionHandler
options =
    entry (codes "CLIENT_IDENTITY") client_identity scope_client restriction_none
    ∷ entry (codes "COD_STATE") cod_state scope_both restriction_none
    ∷ entry (codes "ELAPSED_TIME") elapsed_time scope_any restriction_none
    ∷ entry (codes "FIELD_DELIMITER") field_delimiter scope_client restriction_none
    ∷ entry (codes "LOGGING") logging scope_client 3
    ∷ entry (codes "MEMORY_CONSUMPTION") memory_consumption scope_any restriction_none
    ∷ entry (codes "OUTPUT_ENC") output_enc scope_client restriction_none
    ∷ entry (codes "OUTPUT_HANDLER") output_handler scope_client restriction_none
    ∷ entry (codes "PROVINCE") province scope_both restriction_none
    ∷ entry (codes "SEARCH_CONSTRAINT") search_constraint scope_both restriction_none
    ∷ entry (codes "SERVER_IDENTITY") server_identity scope_client restriction_none
    ∷ entry (codes "TERRITORIAL_COMPETENCE") territorial_competence scope_both restriction_none
    ∷ entry (codes "TIMEOUT") timeout scope_client restriction_none
    ∷ []

-- The loop over the table, from its entry `i` on.
unfoldable pub index_from : Bytes → ℕ → ℕ → List OptionHandler → Option ℕ
index_from cmd scope i [] = none
index_from cmd scope i (o ∷ os) =
    if str_eq cmd o.keyword && meets scope o.scope then some i else index_from cmd scope (suc i) os

-- `none` is -1.
unfoldable pub get_option_index : Bytes → ℕ → Option ℕ
unfolding index_from options
get_option_index cmd scope = index_from cmd scope 0 options

-- `options[i]` for an index that was found.
unfoldable pub find_option : Bytes → ℕ → Option OptionHandler
unfolding get_option_index options
find_option cmd scope = elim (get_option_index cmd scope) [
  | none ↦ none
  | some i ↦ get_elem? options i
]

module _ (S : Sqlite) (G : Glib) (H : Host G) where
  unfoldable pub getter_of : OptionName → OptionGetter S G H
  getter_of client_identity = client_identity_option_getter S G H
  getter_of cod_state = cod_state_option_getter S G H
  getter_of elapsed_time = elapsed_time_option_getter S G H
  getter_of field_delimiter = field_delimiter_option_getter S G H
  getter_of logging = logging_option_getter S G H
  getter_of memory_consumption = memory_consumption_option_getter S G H
  getter_of output_enc = output_enc_option_getter S G H
  getter_of output_handler = output_handler_option_getter S G H
  getter_of province = province_option_getter S G H
  getter_of search_constraint = search_constraint_option_getter S G H
  getter_of server_identity = server_identity_option_getter S G H
  getter_of territorial_competence = territorial_competence_option_getter S G H
  getter_of timeout = timeout_option_getter S G H

  unfoldable pub setter_of : OptionName → OptionSetter S G H
  setter_of client_identity = client_identity_option_setter S G H
  setter_of cod_state = cod_state_option_setter S G H
  setter_of elapsed_time = elapsed_time_option_setter S G H
  setter_of field_delimiter = field_delimiter_option_setter S G H
  setter_of logging = logging_option_setter S G H
  setter_of memory_consumption = memory_consumption_option_setter S G H
  setter_of output_enc = output_enc_option_setter S G H
  setter_of output_handler = output_handler_option_setter S G H
  setter_of province = province_option_setter S G H
  setter_of search_constraint = search_constraint_option_setter S G H
  setter_of server_identity = server_identity_option_setter S G H
  setter_of territorial_competence = territorial_competence_option_setter S G H
  setter_of timeout = timeout_option_setter S G H

  unfoldable pub option_get : Bytes → SessionArg G → ℕ → Do S G (Option Bytes)
  unfolding find_option getter_of
  option_get cmd s scope = unless_null (find_option cmd scope) (pure none) (λ o.
      client_of S G >>= λ c.
      if meets o.restriction restriction_reading && is_anonymous c
      then pure none
      else getter_of o.name s scope false)

  unfoldable pub option_set : Bytes → Bytes → SessionArg G → ℕ → Do S G ℤ
  unfolding find_option setter_of
  option_set cmd value s scope = unless_null (find_option cmd scope) (pure minus_one) (λ o.
      client_of S G >>= λ c.
      if meets o.restriction restriction_writing && is_anonymous c
      then pure minus_one
      else (setter_of o.name value s scope >>= λ status.
          pure (if is_neg status then minus_one else pos 0)))

  -- The text of an entry with its value.
  unfoldable pub listed : ℕ → OptionHandler → Bytes → Bytes
  listed scope o value =
      let buflen = length o.keyword + 1 + length value + 3 in
      if meets scope o.scope
      then snprintf (buflen - 2) (o.keyword ++ (codes " " ++ value))
      else snprintf buflen (o.keyword ++ (codes " [" ++ (value ++ codes "]")))

  abbrev or_word_null : Option Bytes → Bytes
  or_word_null none = codes "NULL"
  or_word_null (some v) = v

  -- Behind the last entry the keyword is NULL.
  unfoldable pub options_list : SessionArg G → ℕ → ℕ → Do S G (Option Bytes)
  unfolding options getter_of listed
  options_list s scope index = unless_null (get_elem? options index) (pure none) (λ o.
      getter_of o.name s scope true >>= λ value. pure (some (listed scope o (or_word_null value))))
