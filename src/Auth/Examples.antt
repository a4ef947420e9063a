-- ===== src/Auth/Examples.antt =====
-- The service on concrete tables, with stand-ins for the hashes.
use mathlib.Core.Path.{subst}
use zglab_rag.Prelude.{
  ℕ, ◌↔◌, ◌≡◌, ◌≢◌, refl, Bool, true, false, Option, none, some, List, [], ◌∷◌, ◌++◌, Text, codes,
  arith, ◌==◌, text_beq, text_eq, nat_eq, if◌then◌else◌,
}
use zglab_rag.Prelude.Rows.{find, update, row_count, next_id}
use zglab_rag.Auth.Models.{
  Platform, Call, UserRecord, user, UserStatus, active, pending, valid, SessionRecord,
  CredentialTokenRecord, activate_account, invalid_credentials, session_error,
}
use zglab_rag.Auth.Exec.{Result, ok, err}
use zglab_rag.Auth.Db.{AuthDb, record_audit}
use zglab_rag.Auth.Password.{normalize_username, matches_username, validate_password_policy}
use zglab_rag.Auth.Tables.Users
use zglab_rag.Auth.Tables.Sessions
use zglab_rag.Auth.Tables.Tokens
use zglab_rag.Auth.Identity.{
  IdentityConfig, set_enabled, admin_reset_password, issue_token, activate, lookup_token,
  activate_commit, consume_token_atomic,
}
use zglab_rag.Auth.Identity.Disable.{set_enabled-resolve_session}
use zglab_rag.Auth.Identity.Reset.{admin_reset_password-login, admin_reset_password-resolve_session}
use zglab_rag.Auth.Identity.Activates.{Activates, activate-Activates}
use zglab_rag.Auth.Session.{
  SessionConfig, login, log_out, resolve_session, new_session, find_valid_session, csrf_token_for,
  principal_of,
}
use zglab_rag.Auth.Session.Roundtrip.{login-resolve_session, log_out-resolve_session}
use zglab_rag.Auth.History.{Operation, Config, run}
use zglab_rag.Auth.Session.Access.{Opens, resolve_session-Opens}
use zglab_rag.Auth.History.SingleUse.{activation, use_token, token_single_use}

abbrev π : Platform
π = record {
  strip = λ s. s;
  lower = λ s. s;
  str_int = λ n. n ∷ [];
  sha256 = λ s. b'#' ∷ s;
  hmac_sha256 = λ k m. k ++ m;
  hash_password = λ salt p. b'$' ∷ salt ++ p;
  verify_password = λ h p. text_beq h (b'$' ∷ codes "salt" ++ p);
}

abbrev identity : IdentityConfig
identity = record {
  password_min_length = 12;
  password_max_length = 128;
  activation_token_ttl = 86400;
  reset_token_ttl = 86400;
}

abbrev sessions : SessionConfig
sessions = record { idle_timeout = 604800; absolute_timeout = 2592000 }

abbrev at_time : ℕ → Call
at_time t = record { now = t; request_id = none; client_hint = none }

abbrev person : ℕ → Text → UserStatus → UserRecord
person id name status = record {
  id = id;
  username = name;
  role = user;
  status = status;
  credential_status = valid;
  password_hash = some (codes "$saltpassword1234");
  created_at = 1;
  created_by = none;
  activated_at = none;
  password_changed_at = none;
}

abbrev bob_session : SessionRecord
bob_session = record {
  id = 1;
  user_id = 2;
  session_hash = codes "#bob-token";
  csrf_secret = codes "secret";
  created_at = 10;
  last_seen_at = 10;
  idle_expires_at = 1000;
  absolute_expires_at = 2000;
  revoked_at = none;
  client_hint = none;
}

abbrev ada : UserRecord
ada = person 1 (codes "ada") active

abbrev bob : UserRecord
bob = person 2 (codes "bob") active

abbrev db : AuthDb
db = record { users = ada ∷ bob ∷ []; sessions = bob_session ∷ []; tokens = []; audit = [] }

program : Unit {0}
unfolding find update row_count next_id record_audit normalize_username matches_username
    validate_password_policy Users.set_password Users.set_status Users.set_credential_status
    Users.mark_activated Sessions.create Sessions.touch Sessions.revoke Sessions.revoke_all_for_user
    Sessions.revoke_count Tokens.create Tokens.mark_consumed Tokens.consumed_count
    Tokens.revoke_superseded set_enabled admin_reset_password issue_token activate lookup_token
    activate_commit consume_token_atomic login log_out resolve_session find_valid_session
    csrf_token_for new_session use_token
program = tt

-- `ada` is disabled; the session of `bob` goes on.
set_enabled-resolve_session_example : ◌≢◌ {A = ℕ} 2 1
unfolding program
set_enabled-resolve_session_example =
    set_enabled-resolve_session π identity sessions (at_time 20) (at_time 30) (codes "ada")
      (codes "bob-token") db ada _ (principal_of bob 1) bob_session refl refl refl

abbrev reset : AuthDb
reset = (admin_reset_password π identity (at_time 20) (codes "reset-token") (codes "ada") db).1

admin_reset_password-login_example :
    (login π sessions
      (at_time 30)
      (codes "t")
      (codes "c")
      (codes "ada")
      (codes "password1234")
      reset).0
    ≡ err invalid_credentials
unfolding program
admin_reset_password-login_example =
    admin_reset_password-login π identity sessions (at_time 20) (at_time 30) (codes "reset-token")
      (codes "ada") (codes "ada") (codes "t") (codes "c") (codes "password1234") db ada _ refl
      (λ p. cc) refl refl

admin_reset_password-resolve_session_example : ◌≢◌ {A = ℕ} 2 1
unfolding program
admin_reset_password-resolve_session_example =
    admin_reset_password-resolve_session π identity sessions (at_time 20) (at_time 30)
      (codes "reset-token") (codes "ada") (codes "bob-token") db ada _ (principal_of bob 1)
      bob_session refl (λ p. cc) refl refl

abbrev config : Config
config = record { platform = π; identity = identity; session = sessions }

abbrev cleo : UserRecord
cleo = person 3 (codes "cleo") pending

abbrev invitation : CredentialTokenRecord
invitation = record {
  id = 1;
  user_id = 3;
  purpose = activate_account;
  token_hash = codes "#invite";
  created_at = 10;
  expires_at = 1000;
  consumed_at = none;
  revoked_at = none;
}

abbrev invited : AuthDb
invited = record { users = cleo ∷ []; sessions = []; tokens = invitation ∷ []; audit = [] }

abbrev use_invitation : ℕ → AuthDb → Result (Option UserRecord) × AuthDb
use_invitation t =
    use_token activation π identity (at_time t) (codes "salt") (codes "invite")
      (codes "long-password")

abbrev joined : AuthDb
joined = (use_invitation 20 invited).1

abbrev history : List (Call × Operation)
history =
    (at_time 30, Operation.set_enabled (codes "cleo") false)
    ∷ (at_time 40, Operation.admin_reset_password (codes "other") (codes "cleo"))
    ∷ []

token_single_use_example : use_invitation 50 (run config history joined) ≢ (ok (some cleo), joined)
unfolding program
token_single_use_example =
    token_single_use config activation activation (at_time 20) (at_time 50) (codes "invite")
      (codes "salt") (codes "long-password") (codes "salt") (codes "long-password") invited joined
      joined history _ (some cleo) refl

activate-Activates_example :
    Activates 20 (codes "$saltlong-password") (π.sha256 (codes "invite")) invited joined
unfolding program
activate-Activates_example =
    activate-Activates π identity (at_time 20) (codes "salt") (codes "invite")
      (codes "long-password") invited joined _ refl

abbrev entered : AuthDb
entered =
    (login π sessions (at_time 20) (codes "token") (codes "csrf") (codes "ada")
      (codes "password1234") db).1

some_eq : (a b : UserRecord) → some a ≡ some b → a ≡ b
some_eq a b h = cc

ids_of :
    (a b : Bool) (u : UserRecord)
    → (if a then some ada else if b then some bob else none) ≡ some u
    → Users.get_by_id u.id db ≡ some u
unfolding program
ids_of true b u h = subst (λ x. Users.get_by_id x.id db ≡ some x) (some_eq ada u h) refl
ids_of false true u h = subst (λ x. Users.get_by_id x.id db ≡ some x) (some_eq bob u h) refl
ids_of false false u h = cc

ids :
    (n : Text) (u : UserRecord)
    → Users.get_by_username n db ≡ some u
    → Users.get_by_id u.id db ≡ some u
unfolding program
ids n u h = ids_of (codes "ada" == n) (codes "bob" == n) u h

login-resolve_session_example :
    (s : SessionRecord) × ((resolve_session π sessions
        (at_time 30)
        (some (codes "token"))
        entered).0
      ≡ ok (principal_of ada 2, s))
unfolding program
login-resolve_session_example =
    login-resolve_session π sessions (at_time 20) (at_time 30) (codes "token") (codes "csrf")
      (codes "ada") (codes "password1234") db _ ids refl refl (omega arith) (omega arith)

log_out-resolve_session_example :
    (resolve_session π sessions
      (at_time 30)
      (some (codes "bob-token"))
      (log_out π sessions (at_time 20) (codes "bob-token") db).1).0
    ≡ err session_error
unfolding program
log_out-resolve_session_example =
    log_out-resolve_session π sessions (at_time 20) (at_time 30) (codes "bob-token") db
      (omega arith)

resolve_session-Opens_example :
    ((resolve_session π sessions (at_time 20) (some (codes "bob-token")) db).0
      ≡ ok (principal_of bob 1, bob_session))
    ↔ Opens π 20 (codes "bob-token") db (principal_of bob 1) bob_session
resolve_session-Opens_example =
    resolve_session-Opens π sessions (at_time 20) (codes "bob-token") db (principal_of bob 1)
      bob_session
