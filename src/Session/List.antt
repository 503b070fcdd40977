-- ===== src/Session/List.antt =====
-- src/session.c: the list of a client's sessions. Its nodes are `void *`: what such a pointer
-- stands for may be a session or an id.
use secoli_sced.Base.{ℕ, Bool, Option, none, some, if◌then◌else◌, ℤ, pos, minus_one, eqb_ℤ}
use secoli_sced.Queue.Glib.{GQueue}
use secoli_sced.Queue.Loops.{queue_find}
use secoli_sced.Queue.{Queue, queue_push, queue_get_first, queue_get_next, queue_get_length}
use secoli_sced.Search.{Glib}
use secoli_sced.Session.{Session, compare_ids, unset_int}

pub data Pointed (G : Glib) : Type 0 where
  session_at : Session G → Pointed G
  id_at : ℕ → Pointed G

module _ (G : Glib) where
  -- The unsigned int that stands first in what is pointed to: `((Session *) s)->id` and `*idp`.
  abbrev pub id_read : Pointed G → ℕ
  id_read (session_at s) = s.id
  id_read (id_at id) = id

  unfoldable pub session_compare_id : Option (Pointed G) → Option (Pointed G) → ℤ
  session_compare_id none idp = minus_one
  session_compare_id (some s) none = minus_one
  session_compare_id (some s) (some idp) = compare_ids (id_read s) (id_read idp)

  module _ (L : GQueue (Pointed G)) where
    abbrev pub Listed : Type 0
    Listed = Option (Pointed G) × Option (Queue L)

    unfoldable pub sessions_add_session : Option (Queue L) → Option (Pointed G) → Listed
    sessions_add_session none s = (none, none)
    sessions_add_session (some q) s =
        let (status, q') = queue_push L (some q) s in (if eqb_ℤ status (pos 0) then s else none, q')

    unfoldable pub sessions_getfirst : Option (Queue L) → Listed
    sessions_getfirst none = (none, none)
    sessions_getfirst (some q) = queue_get_first L (some q)

    unfoldable pub sessions_getnext : Option (Queue L) → Listed
    sessions_getnext none = (none, none)
    sessions_getnext (some q) = queue_get_next L (some q)

    unfoldable pub sessions_session_count : Option (Queue L) → ℤ
    sessions_session_count none = unset_int
    sessions_session_count (some q) = queue_get_length L (some q)

    -- The test that `queue_find` makes with `session_compare_id`.
    abbrev pub has_id : Pointed G → Pointed G → Bool
    has_id s idp = eqb_ℤ (session_compare_id (some s) (some idp)) (pos 0)

    unfoldable pub sessions_find_by_id : Option (Queue L) → ℕ → Listed
    sessions_find_by_id none id = (none, none)
    sessions_find_by_id (some q) id = queue_find L (some q) (some has_id) (some (id_at id))
