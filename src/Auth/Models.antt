-- ===== src/Auth/Models.antt =====
-- The records of src/zglab_rag/auth/models.py, the errors of src/zglab_rag/auth/errors.py, and what
-- the code takes from Python and from argon2. Times are numbers of one unit.
use zglab_rag.Prelude.{ℕ, ◌≡◌, Bool, true, false, Option, Text, arith, ◌↔◌}

pub data UserRole : Type 0 where
  admin user : UserRole

pub data UserStatus : Type 0 where
  pending active disabled : UserStatus

pub data CredentialStatus : Type 0 where
  valid reset_required : CredentialStatus

pub data TokenPurpose : Type 0 where
  activate_account reset_password : TokenPurpose

pub data AuditEvent : Type 0 where
  login_success login_failure logout account_created account_activated : AuditEvent
  password_changed password_reset_requested_by_admin session_revoked : AuditEvent
  account_disabled account_enabled quota_exceeded : AuditEvent

pub record UserRecord : Type 0 where
  pub id : ℕ
  pub username : Text
  pub role : UserRole
  pub status : UserStatus
  pub credential_status : CredentialStatus
  pub password_hash : Option Text
  pub created_at : ℕ
  pub created_by : Option Text
  pub activated_at : Option ℕ
  pub password_changed_at : Option ℕ

pub record SessionRecord : Type 0 where
  pub id : ℕ
  pub user_id : ℕ
  pub session_hash : Text
  pub csrf_secret : Text
  pub created_at : ℕ
  pub last_seen_at : ℕ
  pub idle_expires_at : ℕ
  pub absolute_expires_at : ℕ
  pub revoked_at : Option ℕ
  pub client_hint : Option Text

pub record CredentialTokenRecord : Type 0 where
  pub id : ℕ
  pub user_id : ℕ
  pub purpose : TokenPurpose
  pub token_hash : Text
  pub created_at : ℕ
  pub expires_at : ℕ
  pub consumed_at : Option ℕ
  pub revoked_at : Option ℕ

pub record AuthenticatedPrincipal : Type 0 where
  pub user_id : ℕ
  pub username : Text
  pub role : UserRole
  pub session_id : ℕ

-- A row of `audit_events`.
pub record AuditRow : Type 0 where
  pub created_at : ℕ
  pub event : AuditEvent
  pub user_id : Option ℕ
  pub request_id : Option Text
  pub result : Text
  pub client_hint : Option Text

-- The exceptions; `integrity_error` is that of sqlite3, for a value that has to be unique.
pub data AuthError : Type 0 where
  username_policy duplicate_username password_policy user_not_found : AuthError
  account_unavailable invalid_credentials token_invalid token_expired : AuthError
  session_error csrf_error origin_error service_disabled : AuthError
  auth_database_error integrity_error : AuthError
  login_throttled quota_exceeded_error : ℕ → AuthError

abbrev pub status_beq : UserStatus → UserStatus → Bool
status_beq pending pending = true
status_beq active active = true
status_beq disabled disabled = true
status_beq _ _ = false

abbrev pub purpose_beq : TokenPurpose → TokenPurpose → Bool
purpose_beq activate_account activate_account = true
purpose_beq reset_password reset_password = true
purpose_beq _ _ = false

abbrev pub role_beq : UserRole → UserRole → Bool
role_beq admin admin = true
role_beq user user = true
role_beq _ _ = false

pub status_beq_iff : (a b : UserStatus) → (status_beq a b ≡ true) ↔ (a ≡ b)
status_beq_iff a b = ground arith

pub purpose_beq_iff : (a b : TokenPurpose) → (purpose_beq a b ≡ true) ↔ (a ≡ b)
purpose_beq_iff a b = ground arith

-- What the code calls: `str.strip`, `str.lower`, `str` of a number, SHA-256, HMAC-SHA-256
-- and argon2. The first
-- argument of `hash_password` is the salt.
pub record Platform : Type 0 where
  pub strip : Text → Text
  pub lower : Text → Text
  pub str_int : ℕ → Text
  pub sha256 : Text → Text
  pub hmac_sha256 : Text → Text → Text
  pub hash_password : Text → Text → Text
  pub verify_password : Text → Text → Bool

-- A request's clock reading, and what it carries into the audit. One reading stands for those of
-- one call.
pub record Call : Type 0 where
  pub now : ℕ
  pub request_id : Option Text
  pub client_hint : Option Text
