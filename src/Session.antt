-- ===== src/Session.antt =====
-- src/session.c: sessions, the counter of their ids, and the search of a session. `Session *` is a
-- pointer that may be NULL.
pub mod List
pub mod Ids
mod Tests
use secoli_sced.Base.{
  Bytes, ℕ, ◌+◌, ◌-◌, ◌%◌, ◌^◌, Bool, true, false, not, ◌||◌, Option, none, some, if◌then◌else◌,
  ◌==◌, ℤ, pos, minus_one, getter, update, to_uint, eqb_ℤ,
}
use secoli_sced.Clib.{decimal, snprintf, atoi}
use secoli_sced.ConsularDistrict.{ConsularDistrict, sce_code_unset}
use secoli_sced.Queue.{xmalloc}
use secoli_sced.Sce.{Sce}
use secoli_sced.Search.Execute.{search_execute, search_count_results}
use secoli_sced.Search.{
  Search, Glib, search_create, search_set_cod_state, search_set_territorial_competence,
}
use secoli_sced.Xsqlite.{Sqlite}
use secoli_sced.Zipcode.{cod_state_unset}

-- UNSET_SESSION_ID, -1 as a `session_id_t` (an unsigned int)
abbrev pub unset_session_id : ℕ
unset_session_id = 2 ^ 32 - 1

-- UNSET_INT
abbrev pub unset_int : ℤ
unset_int = minus_one

abbrev pub session_id_buf_len : ℕ
session_id_buf_len = 31

pub record Session (G : Glib) : Type 0 where
  pub id : ℕ
  pub search_of : Option (Search G)
  pub cod_state : ℤ
  pub territorial_competence : Bool
  pub destroy : ℤ
  pub province : Option Bytes

-- `return session_counter++;`
unfoldable pub session_generate_id : ℕ → ℕ × ℕ
session_generate_id session_counter = (session_counter, (session_counter + 1) % 2 ^ 32)

-- `id1` and `id2` are unsigned ints.
unfoldable pub compare_ids : ℕ → ℕ → ℤ
compare_ids id1 id2 =
    if id1 == unset_session_id || id2 == unset_session_id || not (id1 == id2)
    then minus_one
    else pos 0

unfoldable pub session_string_to_id : Option Bytes → ℕ
session_string_to_id none = unset_session_id
session_string_to_id (some str) = to_uint (atoi str)

module _ (G : Glib) where
  abbrev pub SessionPointer : Type 0
  SessionPointer = Option (Session G)

  -- The session that xmalloc finds, whose search is left as it is, and the counter.
  unfoldable pub session_create : SessionPointer → ℕ → SessionPointer × ℕ
  unfolding session_generate_id
  session_create none session_counter = (none, session_counter)
  session_create (some fresh) session_counter =
      let (id, counter) = session_generate_id session_counter in
      (
        some (record fresh {
          id = id;
          cod_state = cod_state_unset;
          province = none;
          territorial_competence = false;
          destroy = pos 0;
        }),
        counter,
      )

  unfoldable pub session_create_search :
      SessionPointer → Option (Search G) → Bool × Bool × Bool × Bool → ℤ × SessionPointer
  session_create_search none fresh memory = (minus_one, none)
  session_create_search (some s) fresh memory =
      elim (search_create G fresh memory s.cod_state none sce_code_unset none (pos 0)) [
        | none ↦ (minus_one, some s)
        | some new ↦ (pos 0, some (record s { search_of = some new }))
      ]

  unfoldable pub session_id_to_string : Bool → SessionPointer → Option (Option Bytes)
  session_id_to_string memory none = some none
  session_id_to_string memory (some s) = elim (xmalloc memory session_id_buf_len) [
    | none ↦ none
    | some n ↦ some (some (snprintf n (decimal s.id)))
  ]

  unfoldable pub session_get_cod_state : SessionPointer → ℤ
  session_get_cod_state = getter (λ s. s.cod_state) cod_state_unset

  unfoldable pub session_set_cod_state : SessionPointer → ℤ → ℤ × SessionPointer
  session_set_cod_state = update λ s cod_state. record s { cod_state = cod_state }

  unfoldable pub session_get_province : SessionPointer → Option Bytes
  session_get_province = getter (λ s. s.province) none

  unfoldable pub session_set_province : SessionPointer → Bytes → ℤ × SessionPointer
  session_set_province = update λ s province. record s { province = some province }

  unfoldable pub session_get_territorial_competence : SessionPointer → Bool
  session_get_territorial_competence = getter (λ s. s.territorial_competence) false

  unfoldable pub session_set_territorial_competence : SessionPointer → Bool → ℤ × SessionPointer
  session_set_territorial_competence = update λ s value. record s { territorial_competence = value }

  -- `search` is changed, the session is not.
  unfoldable pub session_refresh_search_options :
      SessionPointer → Option (Search G) → ℤ × Option (Search G)
  session_refresh_search_options none target = (minus_one, target)
  session_refresh_search_options (some s) none = (minus_one, none)
  session_refresh_search_options (some s) (some target) =
      let t1 = (search_set_cod_state G (some target) s.cod_state).1 in
      let t2 = (search_set_territorial_competence G t1 s.territorial_competence).1 in (pos 0, t2)

  unfoldable pub session_destroy_search : SessionPointer → SessionPointer
  session_destroy_search none = none
  session_destroy_search (some s) = some (record s { search_of = none })

  unfoldable pub session_get_search : SessionPointer → Option (Search G)
  session_get_search = getter (λ s. s.search_of) none

  unfoldable pub session_count_search_results : SessionPointer → ℤ
  session_count_search_results none = minus_one
  session_count_search_results (some s) = search_count_results G s.search_of

  -- `rest` and `memory` are as in `search_execute`.
  unfoldable pub session_execute_search :
      (S : Sqlite)
      → Bytes
      → (ℕ → ℕ → Bool)
      → SessionPointer
      → Sce S (G ConsularDistrict)
      → Option (ℤ × SessionPointer × Sce S (G ConsularDistrict))
  session_execute_search S rest memory none sce = some (minus_one, none, sce)
  session_execute_search S rest memory (some s) sce =
      elim (search_execute S G rest memory s.search_of sce) [
        | none ↦ none
        | some (status, found, sce') ↦ some (status, some (record s { search_of = found }), sce')
      ]
