-- ===== src/Auth/Identity/Disable.antt =====
-- Disabling an account, and the reset of a password by the administrator.
use zglab_rag.Prelude.{
  ◌≡◌, ◌≢◌, refl, sym, ◌∙◌, true, false, Option, none, some, Text, arith, nat_beq_iff, ◌==◌, nat_eq,
  text_eq, Bool-cases, inl, inr,
}
use zglab_rag.Prelude.Rows.{map_option, change}
use zglab_rag.Auth.Models.{
  Platform, Call, UserRecord, SessionRecord, AuthenticatedPrincipal, disabled, active,
}
use zglab_rag.Auth.Exec.{ok}
use zglab_rag.Auth.Db.{AuthDb, record_audit}
use zglab_rag.Auth.Tables.Users
use zglab_rag.Auth.Tables.Users.{get_by_id, get_by_username}
use zglab_rag.Auth.Tables.Sessions
use zglab_rag.Auth.Tables.Laws.{get_by_id_id, get_by_id-update_user}
use zglab_rag.Auth.Password.{matches_username, normalize_username}
use zglab_rag.Auth.Identity.{IdentityConfig, set_enabled}
use zglab_rag.Auth.Session.{SessionConfig, resolve_session}
use zglab_rag.Auth.Session.Access.{resolve_session_inactive}

module _ (π : Platform) (cfg : IdentityConfig) (c : Call) (raw : Text) (db : AuthDb)
    (u : UserRecord) (found : get_by_username (π.lower (π.strip raw)) db ≡ some u)
    {r : Option UserRecord} (done : (set_enabled π cfg c raw false db).0 ≡ ok r) where
  valid_name : matches_username (π.lower (π.strip raw)) ≡ true
  unfolding set_enabled normalize_username
  valid_name = elim (Bool-cases (matches_username (π.lower (π.strip raw)))) [
    | inl e ↦ e
    | inr e ↦ cc (rw e at done)
  ]

  users-set_enabled-false :
      (set_enabled π cfg c raw false db).1.users ≡ (Users.set_status u.id disabled db).users
  unfolding set_enabled normalize_username record_audit Sessions.revoke_all_for_user
  users-set_enabled-false = rw (valid_name, found) (ground arith)

  sessions-set_enabled-false :
      (set_enabled π cfg c raw false db).1.sessions
      ≡ (Sessions.revoke_all_for_user u.id none c.now (Users.set_status u.id disabled db)).sessions
  unfolding set_enabled normalize_username record_audit
  sessions-set_enabled-false = rw (valid_name, found) (ground arith)

  is_disabled :
      (o : Option UserRecord) (v : UserRecord)
      → ((x : UserRecord) → o ≡ some x → (x.id == u.id) ≡ true)
      → map_option (change (λ x. x.id == u.id) (λ x. record x { status = disabled })) o ≡ some v
      → v.status ≢ active
  is_disabled none v own h e = cc
  is_disabled (some x) v own h e = ground (arith, own x refl)

  -- The rows of the user's id are disabled afterwards.
  disabled_row :
      (v : UserRecord)
      → get_by_id u.id (set_enabled π cfg c raw false db).1 ≡ some v
      → v.status ≢ active
  unfolding Users.set_status
  disabled_row v h =
      is_disabled (get_by_id u.id db) v
        (λ x e. (nat_beq_iff x.id u.id).1 (get_by_id_id u.id db x e))
        (sym (get_by_id-update_user u.id (λ x. record x { status = disabled }) db u.id (λ x. refl))
          ∙ rw users-set_enabled-false at h)

-- When the administrator has disabled an account, no session token, whenever it was issued, resolves
-- as its user, at any time, until the tables change again.
pub set_enabled-resolve_session :
    (π : Platform) (cfg : IdentityConfig) (scfg : SessionConfig) (c later : Call) (raw token : Text)
    (db : AuthDb) (u : UserRecord) (r : Option UserRecord) (p : AuthenticatedPrincipal)
    (s : SessionRecord)
    → get_by_username (π.lower (π.strip raw)) db ≡ some u
    → (set_enabled π cfg c raw false db).0 ≡ ok r
    → (resolve_session π scfg later (some token) (set_enabled π cfg c raw false db).1).0 ≡ ok (p, s)
    → p.user_id ≢ u.id
set_enabled-resolve_session π cfg scfg c later raw token db u r p s found done h =
    resolve_session_inactive π scfg later token (set_enabled π cfg c raw false db).1 p s u.id
      (disabled_row π cfg c raw db u found done) h
