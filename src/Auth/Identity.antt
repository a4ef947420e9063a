-- ===== src/Auth/Identity.antt =====
-- `IdentityService` of src/zglab_rag/auth/identity.py. A method gets the random values that it
-- draws as arguments.
pub mod Commit
pub mod Consume
pub mod Activates
pub mod Disable
pub mod Reset
use zglab_rag.Prelude.{
  ℕ, ◌+◌, Bool, true, false, ◌&&◌, ◌||◌, not, Option, none, some, [], ◌∷◌, ◌++◌, Text, codes, leb,
  ltb, nat_beq, if◌then◌else◌, length,
}
use zglab_rag.Auth.Models.{
  Platform, Call, UserRecord, UserRole, UserStatus, pending, active, disabled, CredentialStatus,
  valid, reset_required, TokenPurpose, activate_account, reset_password, CredentialTokenRecord,
  AuditEvent, account_created, account_activated, account_enabled, account_disabled,
  password_changed, password_reset_requested_by_admin, session_revoked, status_beq, purpose_beq,
  AuthError, duplicate_username, user_not_found, account_unavailable, token_invalid, token_expired,
}
use zglab_rag.Auth.Exec.{
  Exec, pure, raise, gets, modify, require, some_or, transaction, ◌>>=◌, ◌>>◌,
}
use zglab_rag.Auth.Db.{AuthDb, record_audit}
use zglab_rag.Auth.Tables.Users
use zglab_rag.Auth.Tables.Sessions
use zglab_rag.Auth.Tables.Sessions.{is_null}
use zglab_rag.Auth.Tables.Tokens
use zglab_rag.Auth.Password.{normalize_username, validate_password_policy}

pub record IdentityConfig : Type 0 where
  pub password_min_length : ℕ
  pub password_max_length : ℕ
  pub activation_token_ttl : ℕ
  pub reset_token_ttl : ℕ

-- What provisioning returns; the plaintext token is seen once.
pub record ProvisionedUser : Type 0 where
  pub user : UserRecord
  pub token : Text
  pub purpose : TokenPurpose

abbrev pub audit : Call → AuditEvent → Text → ℕ → Option Text → Exec AuthDb (Unit {0})
audit c event result user_id hint = modify (record_audit c event result (some user_id) hint)

abbrev pub ttl : IdentityConfig → TokenPurpose → ℕ
ttl cfg activate_account = cfg.activation_token_ttl
ttl cfg reset_password = cfg.reset_token_ttl

abbrev pub is_none : Option UserRecord → Bool
is_none none = true
is_none (some u) = false

-- The tests of `_lookup_token`, on the row that the digest finds.
abbrev pub is_usable : Option TokenPurpose → CredentialTokenRecord → Bool
is_usable none t = is_null t.revoked_at && is_null t.consumed_at
is_usable (some p) t = is_null t.revoked_at && (is_null t.consumed_at && purpose_beq t.purpose p)

abbrev pub reset_purpose : UserStatus → TokenPurpose
reset_purpose pending = activate_account
reset_purpose active = reset_password
reset_purpose disabled = reset_password

-- `if purpose == TokenPurpose.RESET_PASSWORD: …`
abbrev pub expire_credential : ℕ → TokenPurpose → AuthDb → AuthDb
expire_credential user_id reset_password db = Users.set_credential_status user_id reset_required db
expire_credential user_id activate_account db = db

module _ (π : Platform) (cfg : IdentityConfig) (c : Call) where
  -- `_issue_token`; `plaintext` is the generated token.
  unfoldable pub issue_token : Text → ℕ → TokenPurpose → Exec AuthDb Text
  issue_token plaintext user_id purpose = do
    modify (Tokens.revoke_superseded user_id purpose c.now)
    Tokens.create (record {
      id = 0;
      user_id = user_id;
      purpose = purpose;
      token_hash = π.sha256 plaintext;
      created_at = c.now;
      expires_at = c.now + ttl cfg purpose;
      consumed_at = none;
      revoked_at = none;
    })
    pure plaintext

  unfoldable pub provision_user : Text → Text → UserRole → Text → Exec AuthDb ProvisionedUser
  provision_user plaintext raw_username role created_by = do
    username ← normalize_username π raw_username
    (user, token) ← transaction (do
      found ← gets (Users.get_by_username username)
      require (is_none found) duplicate_username
      user ← Users.create username role (some created_by) c.now
      token ← issue_token plaintext user.id activate_account
      pure (user, token))
    audit c account_created (codes "ok") user.id (some created_by)
    pure (record { user = user; token = token; purpose = activate_account })

  unfoldable pub lookup_token : Text → Option TokenPurpose → Exec AuthDb CredentialTokenRecord
  lookup_token token purpose = do
    require (leb 1 (length token) && leb (length token) 256) token_invalid
    found ← gets (Tokens.find_by_hash (π.sha256 token))
    t ← some_or found token_invalid
    require (is_usable purpose t) token_invalid
    require (ltb c.now t.expires_at) token_expired
    pure t

  -- `_consume_token_atomic`: one row has to change.
  unfoldable pub consume_token_atomic : ℕ → Exec AuthDb (Unit {0})
  consume_token_atomic token_id = do
    rowcount ← gets (Tokens.consumed_count token_id)
    modify (Tokens.mark_consumed token_id c.now)
    require (nat_beq rowcount 1) token_invalid

  -- The transaction of `activate_account`, on the row that was looked up before it.
  unfoldable pub activate_commit : CredentialTokenRecord → Text → Exec AuthDb UserRecord
  activate_commit t password_hash = transaction (do
    consume_token_atomic t.id
    found ← gets (Users.get_by_id t.user_id)
    user ← some_or found token_invalid
    require (status_beq user.status pending || status_beq user.status disabled) token_invalid
    modify (Users.set_password user.id password_hash c.now)
    modify (Users.set_credential_status user.id valid)
    modify (Users.mark_activated user.id c.now)
    pure user)

  unfoldable pub activate : Text → Text → Text → Exec AuthDb (Option UserRecord)
  activate salt token password = do
    validate_password_policy cfg.password_min_length cfg.password_max_length password
    t ← lookup_token token (some activate_account)
    user ← activate_commit t (π.hash_password salt password)
    audit c account_activated (codes "ok") user.id none
    gets (Users.get_by_id user.id)

  -- The transaction of `reset_password_with_token`.
  unfoldable pub reset_commit : CredentialTokenRecord → Text → Exec AuthDb UserRecord
  reset_commit t password_hash = transaction (do
    consume_token_atomic t.id
    found ← gets (Users.get_by_id t.user_id)
    user ← some_or found token_invalid
    require (status_beq user.status active) account_unavailable
    modify (Users.set_password user.id password_hash c.now)
    modify (Users.set_credential_status user.id valid)
    modify (Sessions.revoke_all_for_user user.id none c.now)
    pure user)

  unfoldable pub reset_password_with_token : Text → Text → Text → Exec AuthDb (Option UserRecord)
  reset_password_with_token salt token password = do
    validate_password_policy cfg.password_min_length cfg.password_max_length password
    t ← lookup_token token (some reset_password)
    user ← reset_commit t (π.hash_password salt password)
    audit c password_changed (codes "ok_via_reset_token") user.id none
    gets (Users.get_by_id user.id)

  abbrev find_user : Text → Exec AuthDb UserRecord
  find_user raw_username = do
    username ← normalize_username π raw_username
    found ← gets (Users.get_by_username username)
    some_or found user_not_found

  unfoldable pub admin_reset_password : Text → Text → Exec AuthDb ProvisionedUser
  admin_reset_password plaintext raw_username = do
    user ← find_user raw_username
    let purpose = reset_purpose user.status
    token ← transaction (do
      modify (Sessions.revoke_all_for_user user.id none c.now)
      modify (expire_credential user.id purpose)
      issue_token plaintext user.id purpose)
    audit c password_reset_requested_by_admin (codes "ok") user.id none
    pure (record { user = user; token = token; purpose = purpose })

  abbrev count_result : ℕ → Text
  count_result n = codes "ok_count=" ++ π.str_int n

  -- `if revoked: self.audit.record(…)`
  abbrev pub audit_revoked : ℕ → ℕ → AuthDb → AuthDb
  audit_revoked n user_id db =
      if nat_beq n 0
      then db
      else record_audit c session_revoked (count_result n) (some user_id) none db

  unfoldable pub set_enabled : Text → Bool → Exec AuthDb (Option UserRecord)
  set_enabled raw_username true = do
    user ← find_user raw_username
    require (status_beq user.status disabled) account_unavailable
    modify (Users.set_status user.id active)
    audit c account_enabled (codes "ok") user.id none
    gets (Users.get_by_id user.id)
  set_enabled raw_username false = do
    user ← find_user raw_username
    modify (Users.set_status user.id disabled)
    revoked ← gets (Sessions.revoke_count user.id none)
    modify (Sessions.revoke_all_for_user user.id none c.now)
    audit c account_disabled (codes "ok") user.id none
    modify (audit_revoked revoked user.id)
    gets (Users.get_by_id user.id)

  unfoldable pub revoke_sessions : Text → Exec AuthDb ℕ
  revoke_sessions raw_username = do
    user ← find_user raw_username
    revoked ← gets (Sessions.revoke_count user.id none)
    modify (Sessions.revoke_all_for_user user.id none c.now)
    audit c session_revoked (count_result revoked) user.id none
    pure revoked
