-- ===== src/Auth/Identity/Activates.antt =====
-- What `activate_account` of src/zglab_rag/auth/identity.py does to the rows of the tables.
use zglab_rag.Prelude.{
  ℕ, suc, ◌≤◌, ◌≡◌, refl, ap, ◌∙◌, ◌⊎◌, inl, inr, true, ◌&&◌, ◌||◌, Option, none, some, List, [],
  ◌∷◌, map, Text, codes, arith, ◌==◌, nat_eq, if◌then◌else◌,
}
use zglab_rag.Prelude.Rows.{update, change}
use zglab_rag.Auth.Models.{
  Platform, Call, UserRecord, UserStatus, CredentialTokenRecord, activate_account, status_beq,
  purpose_beq_iff, pending, active, disabled, valid, account_activated,
}
use zglab_rag.Auth.Exec.{ok}
use zglab_rag.Auth.Db.{AuthDb, record_audit}
use zglab_rag.Auth.Tables.Users
use zglab_rag.Auth.Tables.Tokens
use zglab_rag.Auth.Tables.Sessions.{is_null}
use zglab_rag.Auth.Identity.{IdentityConfig, activate}
use zglab_rag.Auth.Identity.Commit.{activated_db}
use zglab_rag.Auth.Identity.Consume.{Consumed, activate_ok}

cons_same : (u v : UserRecord) (us vs : List UserRecord) → u ≡ v → us ≡ vs → u ∷ us ≡ v ∷ vs
cons_same u v us vs h k = cc

module _ (now : ℕ) (password_hash : Text) where
  -- The user's row as the activation leaves it.
  abbrev pub activated_row : ℕ → UserRecord → UserRecord
  activated_row user_id u =
      if u.id == user_id
      then record {
        id = u.id;
        username = u.username;
        role = u.role;
        status = active;
        credential_status = valid;
        password_hash = some password_hash;
        created_at = u.created_at;
        created_by = u.created_by;
        activated_at = some now;
        password_changed_at = some now;
      }
      else u

  -- The token's row, which had no `consumed_at`.
  abbrev pub consumed_row : ℕ → CredentialTokenRecord → CredentialTokenRecord
  consumed_row token_id t =
      if t.id == token_id && is_null t.consumed_at then record t { consumed_at = some now } else t

  -- What a successful activation has found, and the tables that it leaves.
  pub record Activates (digest : Text) (db db' : AuthDb) : Type 0 where
    pub row : CredentialTokenRecord
    pub found : Tokens.find_by_hash digest db ≡ some row
    pub unconsumed : row.consumed_at ≡ none
    pub unrevoked : row.revoked_at ≡ none
    pub to_activate : row.purpose ≡ activate_account
    pub unexpired : suc now ≤ row.expires_at
    pub user : UserRecord
    pub known : Users.get_by_id row.user_id db ≡ some user
    pub inactive : (user.status ≡ pending) ⊎ (user.status ≡ disabled)
    pub users : db'.users ≡ map (activated_row user.id) db.users
    pub tokens : db'.tokens ≡ map (consumed_row row.id) db.tokens
    pub sessions : db'.sessions ≡ db.sessions

  updated_row :
      (i : ℕ) (u : UserRecord)
      → change
          (λ u. u.id == i)
          (λ u. record u { status = active; activated_at = some now })
          (change
            (λ u. u.id == i)
            (λ u. record u { credential_status = valid })
            (change
              (λ u. u.id == i)
              (λ u. record u { password_hash = some password_hash; password_changed_at = some now })
              u))
        ≡ activated_row i u
  updated_row i u = ground arith

  updated_users :
      (i : ℕ) (us : List UserRecord)
      → update
          (λ u. u.id == i)
          (λ u. record u { status = active; activated_at = some now })
          (update
            (λ u. u.id == i)
            (λ u. record u { credential_status = valid })
            (update
              (λ u. u.id == i)
              (λ u. record u { password_hash = some password_hash; password_changed_at = some now })
              us))
        ≡ map (activated_row i) us
  unfolding update
  updated_users i [] = refl
  updated_users i (u ∷ us) = cons_same _ _ _ _ (updated_row i u) (updated_users i us)

  updated_tokens :
      (i : ℕ) (ts : List CredentialTokenRecord)
      → update (Tokens.is_unconsumed i) (λ t. record t { consumed_at = some now }) ts
        ≡ map (consumed_row i) ts
  unfolding update
  updated_tokens i [] = refl
  updated_tokens i (t ∷ ts) = ap (λ l. consumed_row i t ∷ l) (updated_tokens i ts)

is_null-none : (o : Option ℕ) → is_null o ≡ true → o ≡ none
is_null-none none h = refl
is_null-none (some t) h = cc

was_inactive :
    (s : UserStatus)
    → (status_beq s pending || status_beq s disabled) ≡ true
    → (s ≡ pending) ⊎ (s ≡ disabled)
was_inactive pending h = inl refl
was_inactive active h = cc
was_inactive disabled h = inr refl

module _ (π : Platform) (cfg : IdentityConfig) (c : Call) (salt token password : Text)
    (db db' : AuthDb) (r : Option UserRecord) where
  consumed-Activates :
      Consumed π cfg c activate_account token
        (λ u. status_beq u.status pending || status_beq u.status disabled)
        (λ t u.
          record_audit c account_activated
            (codes "ok")
            (some u.id)
            none
            (activated_db π cfg c t (π.hash_password salt password) u db))
        db
        db'
      → Activates c.now (π.hash_password salt password) (π.sha256 token) db db'
  unfolding record_audit Users.mark_activated Users.set_credential_status Users.set_password
      Users.update_user Tokens.mark_consumed Tokens.update_tokens
  consumed-Activates k =
      let h = π.hash_password salt password in
      let usable = k.looked_up.1 in
      record {
        row = k.row;
        found = k.looked_up.0;
        unconsumed = is_null-none k.row.consumed_at (ground (arith, usable));
        unrevoked = is_null-none k.row.revoked_at (ground (arith, usable));
        to_activate = (purpose_beq_iff k.row.purpose activate_account).0 (ground (arith, usable));
        unexpired = ground (arith, k.looked_up.2);
        user = k.user;
        known = k.known;
        inactive = was_inactive k.user.status k.permitted;
        users = ap (λ d. d.users) k.written ∙ updated_users c.now h k.user.id db.users;
        tokens = ap (λ d. d.tokens) k.written ∙ updated_tokens c.now h k.row.id db.tokens;
        sessions = ap (λ d. d.sessions) k.written;
      }

  -- A successful activation has found the row of the token's digest, which was neither consumed nor revoked,
  -- is for an activation and has not expired, and its user, who was pending or disabled. In the tables that
  -- it leaves, the user's row is active, with a valid credential, the new password's hash and the times of
  -- the activation and of the password; the token's row is consumed; every other row, and every session, is
  -- as it was.
  pub activate-Activates :
      activate π cfg c salt token password db ≡ (ok r, db')
      → Activates c.now (π.hash_password salt password) (π.sha256 token) db db'
  activate-Activates h = consumed-Activates (activate_ok π cfg c salt token password db db' r h)
