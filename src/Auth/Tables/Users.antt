-- ===== src/Auth/Tables/Users.antt =====
-- `UserRepository` of src/zglab_rag/auth/repositories.py.
use zglab_rag.Prelude.{ℕ, Option, none, some, [], ◌∷◌, ◌++◌, Text, ◌==◌, nat_eq, text_eq}
use zglab_rag.Prelude.Rows.{find, update, next_id}
use zglab_rag.Auth.Models.{
  UserRecord, UserRole, UserStatus, pending, active, CredentialStatus, valid, integrity_error,
}
use zglab_rag.Auth.Exec.{Exec, ok, err}
use zglab_rag.Auth.Db.{AuthDb}

abbrev pub get_by_id : ℕ → AuthDb → Option UserRecord
get_by_id user_id db = find (λ u. u.id == user_id) db.users

abbrev pub get_by_username : Text → AuthDb → Option UserRecord
get_by_username username db = find (λ u. u.username == username) db.users

-- The row that `create` inserts; the schema gives the credential status.
unfoldable pub new_user : ℕ → Text → UserRole → Option Text → ℕ → UserRecord
new_user id username role created_by now = record {
  id = id;
  username = username;
  role = role;
  status = pending;
  credential_status = valid;
  password_hash = none;
  created_at = now;
  created_by = created_by;
  activated_at = none;
  password_changed_at = none;
}

-- The insertion, where the schema's `UNIQUE` finds no row of the name.
abbrev insert_new : Option UserRecord → UserRecord → Exec AuthDb UserRecord
insert_new (some _) u db = (err integrity_error, db)
insert_new none u db = (ok u, record db { users = db.users ++ u ∷ [] })

unfoldable pub create : Text → UserRole → Option Text → ℕ → Exec AuthDb UserRecord
create username role created_by now db =
    insert_new (get_by_username username db)
      (new_user (next_id (λ x. x.id) db.users) username role created_by now) db

-- `UPDATE users SET … WHERE id=?`
unfoldable pub update_user : ℕ → (UserRecord → UserRecord) → AuthDb → AuthDb
update_user user_id f db = record db { users = update (λ u. u.id == user_id) f db.users }

unfoldable pub set_password : ℕ → Text → ℕ → AuthDb → AuthDb
unfolding update_user
set_password user_id password_hash now =
    update_user user_id
      (λ u. record u { password_hash = some password_hash; password_changed_at = some now })

unfoldable pub set_status : ℕ → UserStatus → AuthDb → AuthDb
unfolding update_user
set_status user_id status = update_user user_id (λ u. record u { status = status })

unfoldable pub set_credential_status : ℕ → CredentialStatus → AuthDb → AuthDb
unfolding update_user
set_credential_status user_id status =
    update_user user_id (λ u. record u { credential_status = status })

unfoldable pub mark_activated : ℕ → ℕ → AuthDb → AuthDb
unfolding update_user
mark_activated user_id now =
    update_user user_id (λ u. record u { status = active; activated_at = some now })
