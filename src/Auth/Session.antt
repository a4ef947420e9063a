-- ===== src/Auth/Session.antt =====
-- `SessionService` of src/zglab_rag/auth/session.py. A method gets the random values that it draws
-- as arguments.
pub mod Access
pub mod Login
pub mod Roundtrip
use zglab_rag.Prelude.{
  ℕ, ◌+◌, Bool, true, false, ◌&&◌, ◌||◌, not, Option, none, some, List, [], ◌∷◌, ◌++◌, Text, codes,
  leb, ltb, if◌then◌else◌, length, any, ◌==◌, text_eq,
}
use zglab_rag.Auth.Models.{
  Platform, Call, UserRecord, UserRole, UserStatus, pending, active, disabled, CredentialStatus,
  valid, reset_required, SessionRecord, AuthenticatedPrincipal, AuditEvent, login_success,
  login_failure, logout, password_changed, status_beq, role_beq, AuthError, invalid_credentials,
  session_error, csrf_error, account_unavailable,
}
use zglab_rag.Auth.Exec.{
  Exec, pure, raise, gets, modify, require, some_or, transaction, ◌>>=◌, ◌>>◌,
}
use zglab_rag.Auth.Db.{AuthDb, record_audit}
use zglab_rag.Auth.Tables.Users
use zglab_rag.Auth.Tables.Sessions
use zglab_rag.Auth.Tables.Sessions.{is_null}
use zglab_rag.Auth.Password.{validate_password_policy}

pub record SessionConfig : Type 0 where
  pub idle_timeout : ℕ
  pub absolute_timeout : ℕ

pub record LoginResult : Type 0 where
  pub principal : AuthenticatedPrincipal
  pub session_token : Text
  pub csrf_token : Text

-- `hmac(csrf_secret, f"csrf:{session.id}")`
unfoldable pub csrf_token_for : Platform → SessionRecord → Text
csrf_token_for π s = π.hmac_sha256 s.csrf_secret (codes "csrf:" ++ π.str_int s.id)

abbrev pub principal_of : UserRecord → ℕ → AuthenticatedPrincipal
principal_of u session_id = record {
  user_id = u.id;
  username = u.username;
  role = u.role;
  session_id = session_id;
}

module _ (π : Platform) where
  -- A user that has no password hash, or an empty one, is never verified.
  abbrev pub verified : Option Text → Text → Bool
  verified none password = false
  verified (some []) password = false
  verified (some (h ∷ hs)) password = π.verify_password (h ∷ hs) password

  -- `_find_valid_session`, of a table and at a time
  abbrev pub is_live : ℕ → SessionRecord → Bool
  is_live now s =
      is_null s.revoked_at && (ltb now s.idle_expires_at && ltb now s.absolute_expires_at)

  abbrev pub live_or_none : ℕ → Option SessionRecord → Option SessionRecord
  live_or_none now none = none
  live_or_none now (some s) = if is_live now s then some s else none

  unfoldable pub find_valid_session : ℕ → Text → AuthDb → Option SessionRecord
  find_valid_session now token db =
      if leb 1 (length token) && leb (length token) 256
      then live_or_none now (Sessions.find_by_hash (π.sha256 token) db)
      else none

abbrev pub credential_is_valid : CredentialStatus → Bool
credential_is_valid valid = true
credential_is_valid reset_required = false

-- `f"account_{user.status.value.lower()}"`
abbrev pub account_result : UserStatus → Text
account_result pending = codes "account_pending"
account_result active = codes "account_active"
account_result disabled = codes "account_disabled"

module _ (π : Platform) (cfg : SessionConfig) (c : Call) where
  abbrev pub log : AuditEvent → Text → Option ℕ → Exec AuthDb (Unit {0})
  log event result user_id = modify (record_audit c event result user_id c.client_hint)

  -- A failure is logged, and is the same error for every cause.
  abbrev pub reject_unless : Bool → Text → Option ℕ → Exec AuthDb (Unit {0})
  reject_unless true result user_id = pure tt
  reject_unless false result user_id = do
    log login_failure result user_id
    raise invalid_credentials

  abbrev pub known_user : Option UserRecord → Exec AuthDb UserRecord
  known_user none = do log login_failure (codes "unknown_user") none; raise invalid_credentials
  known_user (some u) = pure u

  -- The row of a new session, before it has an id.
  unfoldable pub new_session : Text → Text → UserRecord → SessionRecord
  new_session token csrf_secret u = record {
    id = 0;
    user_id = u.id;
    session_hash = π.sha256 token;
    csrf_secret = csrf_secret;
    created_at = c.now;
    last_seen_at = c.now;
    idle_expires_at = c.now + cfg.idle_timeout;
    absolute_expires_at = c.now + cfg.absolute_timeout;
    revoked_at = none;
    client_hint = c.client_hint;
  }

  -- `login`; `token` and `csrf_secret` are the generated ones.
  unfoldable pub login : Text → Text → Text → Text → Exec AuthDb LoginResult
  unfolding new_session
  login token csrf_secret raw_username password = do
    found ← gets (Users.get_by_username (π.lower (π.strip raw_username)))
    user ← known_user found
    reject_unless (verified π user.password_hash password) (codes "invalid_password") (some user.id)
    reject_unless (credential_is_valid user.credential_status) (codes "credential_reset_required")
        (some user.id)
    reject_unless (status_beq user.status active) (account_result user.status) (some user.id)
    session ← Sessions.create (new_session token csrf_secret user)
    log login_success (codes "ok") (some user.id)
    pure (record {
      principal = principal_of user session.id;
      session_token = token;
      csrf_token = csrf_token_for π session;
    })

  abbrev pub audit_session : AuditEvent → Text → ℕ → Exec AuthDb (Unit {0})
  audit_session event result user_id = modify (record_audit c event result (some user_id) none)

  abbrev pub end_session : Option SessionRecord → Exec AuthDb (Unit {0})
  end_session none = pure tt
  end_session (some s) = do
    modify (Sessions.revoke s.id c.now)
    audit_session logout (codes "ok") s.user_id

  -- `logout`
  unfoldable pub log_out : Text → Exec AuthDb (Unit {0})
  log_out token = do session ← gets (find_valid_session π c.now token); end_session session

  abbrev pub is_active : Option UserRecord → Bool
  is_active none = false
  is_active (some u) = status_beq u.status active

  unfoldable pub resolve_session :
      Option Text → Exec AuthDb (AuthenticatedPrincipal × SessionRecord)
  resolve_session none = raise session_error
  resolve_session (some token) = do
    found ← gets (find_valid_session π c.now token)
    session ← some_or found session_error
    owner ← gets (Users.get_by_id session.user_id)
    require (is_active owner) session_error
    user ← some_or owner session_error
    modify (Sessions.touch session.id (c.now + cfg.idle_timeout) c.now)
    pure (principal_of user session.id, session)

  abbrev pub has_password : Option Text → Bool
  has_password none = false
  has_password (some []) = false
  has_password (some (h ∷ hs)) = true

  abbrev pub require_current : Bool → ℕ → Exec AuthDb (Unit {0})
  require_current true user_id = pure tt
  require_current false user_id = do
    audit_session login_failure (codes "change_password_invalid_current") user_id
    raise invalid_credentials

  unfoldable pub change_password :
      Text → Text → Text → Text → ℕ → ℕ → Exec AuthDb AuthenticatedPrincipal
  change_password salt token current_password new_password min_length max_length = do
    (principal, session) ← resolve_session (some token)
    found ← gets (Users.get_by_id principal.user_id)
    user ← some_or found session_error
    require (has_password user.password_hash) session_error
    require_current (verified π user.password_hash current_password) user.id
    validate_password_policy min_length max_length new_password
    transaction (do
      modify (Users.set_password user.id (π.hash_password salt new_password) c.now)
      modify (Sessions.revoke_all_for_user user.id (some session.id) c.now))
    audit_session password_changed (codes "ok_self") user.id
    pure principal

-- `verify_csrf`, with the comparison of the digests
unfoldable pub verify_csrf : Platform → SessionRecord → Option Text → Exec AuthDb (Unit {0})
verify_csrf π s none = raise csrf_error
verify_csrf π s (some token) = do
  require (leb 1 (length token)) csrf_error
  require (csrf_token_for π s == token) csrf_error

unfoldable pub require_authenticated_role :
    AuthenticatedPrincipal → List UserRole → Exec AuthDb (Unit {0})
require_authenticated_role p roles = require (any (role_beq p.role) roles) account_unavailable
