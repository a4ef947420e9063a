-- ===== src/Auth/Tables/Sessions.antt =====
-- `SessionRepository` of src/zglab_rag/auth/repositories.py.
use zglab_rag.Prelude.{
  ℕ, Option, none, some, Bool, true, false, ◌&&◌, ◌||◌, not, [], ◌∷◌, ◌++◌, Text, ltb, ◌==◌, nat_eq,
  text_eq,
}
use zglab_rag.Prelude.Rows.{find, update, row_count, delete, next_id}
use zglab_rag.Auth.Models.{SessionRecord, integrity_error}
use zglab_rag.Auth.Exec.{Exec, ok, err}
use zglab_rag.Auth.Db.{AuthDb}

abbrev pub find_by_hash : Text → AuthDb → Option SessionRecord
find_by_hash session_hash db = find (λ s. s.session_hash == session_hash) db.sessions

abbrev pub with_id : ℕ → SessionRecord → SessionRecord
with_id id s = record s { id = id; revoked_at = none }

-- The insertion, where the schema's `UNIQUE` finds no row of the hash; the id is the table's.
abbrev pub insert_new : Option SessionRecord → SessionRecord → Exec AuthDb SessionRecord
insert_new (some _) s db = (err integrity_error, db)
insert_new none s db = (ok s, record db { sessions = db.sessions ++ s ∷ [] })

unfoldable pub create : SessionRecord → Exec AuthDb SessionRecord
create session db =
    insert_new (find_by_hash session.session_hash db)
      (with_id (next_id (λ x. x.id) db.sessions) session) db

-- `UPDATE sessions SET … WHERE …`
unfoldable pub update_sessions :
    (SessionRecord → Bool) → (SessionRecord → SessionRecord) → AuthDb → AuthDb
update_sessions q f db = record db { sessions = update q f db.sessions }

unfoldable pub touch : ℕ → ℕ → ℕ → AuthDb → AuthDb
unfolding update_sessions
touch session_id idle_expires_at now =
    update_sessions (λ s. s.id == session_id)
      (λ s. record s { last_seen_at = now; idle_expires_at = idle_expires_at })

abbrev pub is_null : Option ℕ → Bool
is_null none = true
is_null (some t) = false

abbrev pub with_revoked : ℕ → SessionRecord → SessionRecord
with_revoked now s = record s { revoked_at = some now }

unfoldable pub revoke : ℕ → ℕ → AuthDb → AuthDb
unfolding update_sessions
revoke session_id now =
    update_sessions (λ s. s.id == session_id && is_null s.revoked_at) (with_revoked now)

-- The rows that `revoke_all_for_user` sets, `except_session_id` being optional.
abbrev pub is_revocable : ℕ → Option ℕ → SessionRecord → Bool
is_revocable user_id none s = s.user_id == user_id && is_null s.revoked_at
is_revocable user_id (some kept) s =
    s.user_id == user_id && (is_null s.revoked_at && not (s.id == kept))

unfoldable pub revoke_all_for_user : ℕ → Option ℕ → ℕ → AuthDb → AuthDb
unfolding update_sessions
revoke_all_for_user user_id except_session_id now =
    update_sessions (is_revocable user_id except_session_id) (with_revoked now)

unfoldable pub revoke_count : ℕ → Option ℕ → AuthDb → ℕ
revoke_count user_id except_session_id db =
    row_count (is_revocable user_id except_session_id) db.sessions

unfoldable pub prune_expired : ℕ → AuthDb → AuthDb
prune_expired now db = record db {
  sessions =
      delete
        (λ s.
          not (is_null s.revoked_at)
          || (ltb s.idle_expires_at now || ltb s.absolute_expires_at now))
        db.sessions;
}
