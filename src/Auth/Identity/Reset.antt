-- ===== src/Auth/Identity/Reset.antt =====
-- The reset of a password by the administrator: `admin_reset_password`.
use zglab_rag.Prelude.{
  ℕ, ◌≡◌, ◌≢◌, refl, ap, ◌∙◌, true, false, none, some, Text, arith, nat_beq_iff, ◌==◌, nat_eq,
  text_eq, Bool-cases, inl, inr,
}
use zglab_rag.Auth.Models.{
  Platform, Call, UserRecord, UserStatus, pending, active, disabled, SessionRecord,
  AuthenticatedPrincipal, reset_required, TokenPurpose, reset_password, invalid_credentials,
}
use zglab_rag.Auth.Exec.{Result-cases, ok, err}
use zglab_rag.Auth.Db.{AuthDb, record_audit}
use zglab_rag.Auth.Tables.Users
use zglab_rag.Auth.Tables.Users.{get_by_id, get_by_username}
use zglab_rag.Auth.Tables.Sessions
use zglab_rag.Auth.Tables.Tokens
use zglab_rag.Auth.Tables.Laws.{get_by_id_id, get_by_username-update_user, find_by_hash-revoke_all}
use zglab_rag.Auth.Password.{matches_username, normalize_username}
use zglab_rag.Auth.Identity.{
  IdentityConfig, ProvisionedUser, reset_purpose, issue_token, admin_reset_password,
}
use zglab_rag.Auth.Session.{SessionConfig, login, resolve_session}
use zglab_rag.Auth.Session.Access.{resolve_session-Opens}
use zglab_rag.Auth.Session.Login.{login_reset_required}

reset_purpose_ne : (s : UserStatus) → s ≢ pending → reset_purpose s ≡ reset_password
reset_purpose_ne pending h = absurd (h refl)
reset_purpose_ne active h = refl
reset_purpose_ne disabled h = refl

-- Issuing a token touches no user and no session.
issue_token_keeps :
    (π : Platform) (cfg : IdentityConfig) (c : Call) (plaintext : Text) (i : ℕ) (p : TokenPurpose)
    (db : AuthDb)
    → ((issue_token π cfg c plaintext i p db).1.users ≡ db.users)
      × ((issue_token π cfg c plaintext i p db).1.sessions ≡ db.sessions)
unfolding issue_token Tokens.create Tokens.revoke_superseded
issue_token_keeps π cfg c plaintext i p db = ground arith

module _ (π : Platform) (cfg : IdentityConfig) (c : Call) (plaintext raw : Text) (db : AuthDb)
    (u : UserRecord) (found : get_by_username (π.lower (π.strip raw)) db ≡ some u)
    (activated : u.status ≢ pending) {r : ProvisionedUser}
    (done : (admin_reset_password π cfg c plaintext raw db).0 ≡ ok r) where
  valid_name : matches_username (π.lower (π.strip raw)) ≡ true
  unfolding admin_reset_password normalize_username
  valid_name = elim (Bool-cases (matches_username (π.lower (π.strip raw)))) [
    | inl e ↦ e
    | inr e ↦ cc (rw e at done)
  ]

  abbrev reset_db : AuthDb
  reset_db =
      Users.set_credential_status u.id reset_required
        (Sessions.revoke_all_for_user u.id none c.now db)

  after_reset :
      ((admin_reset_password π cfg c plaintext raw db).1.users ≡ reset_db.users)
      × ((admin_reset_password π cfg c plaintext raw db).1.sessions ≡ reset_db.sessions)
  unfolding admin_reset_password normalize_username record_audit
  after_reset =
      let keeps = issue_token_keeps π cfg c plaintext u.id reset_password reset_db in
      elim (Result-cases (issue_token π cfg c plaintext u.id reset_password reset_db).0) [
        | inl (t, e) ↦ rw (valid_name, found, reset_purpose_ne u.status activated, e) keeps
        | inr (x, e) ↦ cc (rw (valid_name, found, reset_purpose_ne u.status activated, e) at done)
      ]

  reset_user :
      get_by_username (π.lower (π.strip raw)) (admin_reset_password π cfg c plaintext raw db).1
      ≡ some (record u { credential_status = reset_required })
  unfolding Users.set_credential_status Sessions.revoke_all_for_user
  reset_user = rw (after_reset.0) (
      get_by_username-update_user u.id (λ x. record x { credential_status = reset_required }) db
        (π.lower (π.strip raw)) (λ x. refl)
      ∙ rw (found, (nat_beq_iff u.id u.id).1 refl) refl)

  reset_session :
      (hash : Text) (s : SessionRecord)
      → Sessions.find_by_hash hash (admin_reset_password π cfg c plaintext raw db).1 ≡ some s
      → Sessions.is_null s.revoked_at ≡ true
      → (s.user_id == u.id) ≡ false
  unfolding Users.set_credential_status
  reset_session hash s h live =
      find_by_hash-revoke_all u.id c.now hash db s (rw after_reset.1 at h) live

-- When the administrator has reset the password of an account that had been activated, nobody logs
-- in under its name, with any password and at any time, until the tables change again.
pub admin_reset_password-login :
    (π : Platform) (cfg : IdentityConfig) (scfg : SessionConfig) (c later : Call)
    (plaintext raw raw' token csrf password : Text) (db : AuthDb) (u : UserRecord)
    (r : ProvisionedUser)
    → get_by_username (π.lower (π.strip raw)) db ≡ some u
    → u.status ≢ pending
    → (admin_reset_password π cfg c plaintext raw db).0 ≡ ok r
    → π.lower (π.strip raw') ≡ π.lower (π.strip raw)
    → (login π scfg later token csrf raw' password
        (admin_reset_password π cfg c plaintext raw db).1).0
      ≡ err invalid_credentials
admin_reset_password-login π cfg scfg c later plaintext raw raw' token csrf password db u r found
      activated done same =
    let db' = (admin_reset_password π cfg c plaintext raw db).1 in
    login_reset_required π scfg later token csrf raw' password db'
      (record u { credential_status = reset_required })
      (ap (λ n. get_by_username n db') same
        ∙ reset_user π cfg c plaintext raw db u found activated done)
      refl

-- When the administrator has reset the password of an account that had been activated, no session
-- token, whenever it was issued, resolves as its user, at any time, until the tables change again.
pub admin_reset_password-resolve_session :
    (π : Platform) (cfg : IdentityConfig) (scfg : SessionConfig) (c later : Call)
    (plaintext raw token : Text) (db : AuthDb) (u : UserRecord) (r : ProvisionedUser)
    (p : AuthenticatedPrincipal) (s : SessionRecord)
    → get_by_username (π.lower (π.strip raw)) db ≡ some u
    → u.status ≢ pending
    → (admin_reset_password π cfg c plaintext raw db).0 ≡ ok r
    → (resolve_session π scfg later
        (some token)
        (admin_reset_password π cfg c plaintext raw db).1).0
      ≡ ok (p, s)
    → p.user_id ≢ u.id
admin_reset_password-resolve_session π cfg scfg c later plaintext raw token db u r p s found
      activated done h same =
    let db' = (admin_reset_password π cfg c plaintext raw db).1 in
    let o = (resolve_session-Opens π scfg later token db' p s).0 h in
    let other =
      reset_session π cfg c plaintext raw db u found activated done (π.sha256 token) s o.found
        (ap Sessions.is_null o.unrevoked) in
    let owner = get_by_id_id s.user_id db' o.owner o.owned in
    ground (arith, other, owner, o.principal)
