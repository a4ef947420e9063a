-- ===== src/Auth/Tables/Laws.antt =====
-- What the updates of the repositories do to the rows that are found.
use zglab_rag.Prelude.{
  ℕ, ◌≡◌, refl, sym, ◌∙◌, true, false, Option, none, some, Text, ◌==◌, nat_eq, text_eq, arith,
  nat_beq_iff, text_beq_iff,
}
use zglab_rag.Prelude.Rows.{map_option, change, find-update, find-some}
use zglab_rag.Auth.Models.{UserRecord, SessionRecord}
use zglab_rag.Auth.Db.{AuthDb}
use zglab_rag.Auth.Tables.Users.{get_by_id, get_by_username, update_user}
use zglab_rag.Auth.Tables.Sessions
use zglab_rag.Auth.Tables.Sessions.{
  update_sessions, is_revocable, with_revoked, is_null, revoke_all_for_user,
}

-- The row that is found by its id has that id.
pub get_by_id_id : (i : ℕ) (db : AuthDb) (u : UserRecord) → get_by_id i db ≡ some u → u.id ≡ i
get_by_id_id i db u h = (nat_beq_iff u.id i).0 (find-some (λ x. x.id == i) db.users u h)

pub get_by_username_username :
    (n : Text) (db : AuthDb) (u : UserRecord) → get_by_username n db ≡ some u → u.username ≡ n
get_by_username_username n db u h =
    (text_beq_iff u.username n).0 (find-some (λ x. x.username == n) db.users u h)

module _ (i : ℕ) (f : UserRecord → UserRecord) (db : AuthDb) where
  pub get_by_id-update_user :
      (j : ℕ)
      → ((u : UserRecord) → (f u).id ≡ u.id)
      → get_by_id j (update_user i f db) ≡ map_option (change (λ u. u.id == i) f) (get_by_id j db)
  unfolding update_user
  get_by_id-update_user j h =
      find-update (λ u. u.id == j) (λ u. u.id == i) f db.users (λ u. rw (h u))

  pub get_by_username-update_user :
      (n : Text)
      → ((u : UserRecord) → (f u).username ≡ u.username)
      → get_by_username n (update_user i f db)
        ≡ map_option (change (λ u. u.id == i) f) (get_by_username n db)
  unfolding update_user
  get_by_username-update_user n h =
      find-update (λ u. u.username == n) (λ u. u.id == i) f db.users (λ u. rw (h u))

revoked_ne :
    (user_id now : ℕ) (o : Option SessionRecord) (s : SessionRecord)
    → map_option (change (is_revocable user_id none) (with_revoked now)) o ≡ some s
    → is_null s.revoked_at ≡ true
    → (s.user_id == user_id) ≡ false
revoked_ne user_id now none s h live = cc
revoked_ne user_id now (some x) s h live = ground arith

-- A session that is found after all those of a user were revoked is another user's, or revoked.
pub find_by_hash-revoke_all :
    (user_id now : ℕ) (hash : Text) (db : AuthDb) (s : SessionRecord)
    → Sessions.find_by_hash hash (revoke_all_for_user user_id none now db) ≡ some s
    → is_null s.revoked_at ≡ true
    → (s.user_id == user_id) ≡ false
unfolding revoke_all_for_user
find_by_hash-revoke_all user_id now hash db s h live =
    revoked_ne user_id now (Sessions.find_by_hash hash db) s
      (sym (
          find-update (λ x. x.session_hash == hash) (is_revocable user_id none) (with_revoked now)
            db.sessions (λ x. refl))
        ∙ h)
      live
