-- ===== src/Auth/History/Once.antt =====
-- Every operation keeps what is consumed consumed, so a token works once in any run.
use zglab_rag.Prelude.{
  ℕ, Bool, true, false, Option, none, some, List, [], ◌∷◌, Text, nat_eq, text_eq, Bool-cases, inl,
  inr, nat_beq,
}
use zglab_rag.Auth.Models.{
  Platform, Call, UserRole, UserRecord, SessionRecord, CredentialTokenRecord, TokenPurpose,
  activate_account, reset_password,
}
use zglab_rag.Auth.Exec.Keeps.{Keeps, keeps_rules}
use zglab_rag.Auth.Db.{AuthDb}
use zglab_rag.Auth.Tables.Sessions
use zglab_rag.Auth.Password.{normalize_username, validate_password_policy}
use zglab_rag.Auth.Identity.{
  IdentityConfig, issue_token, provision_user, lookup_token, consume_token_atomic, activate_commit,
  activate, reset_commit, reset_password_with_token, admin_reset_password, set_enabled,
  expire_credential, audit_revoked, revoke_sessions,
}
use zglab_rag.Auth.Session.{
  SessionConfig, login, log_out, resolve_session, change_password, reject_unless, known_user,
  end_session, require_current,
}
use zglab_rag.Auth.History.{Operation, Config, perform, run}
use zglab_rag.Auth.History.Spent.{
  IsSpent, mark_consumed-IsSpent, revoke_superseded-IsSpent, create-IsSpent, audit-IsSpent,
  set_password-IsSpent, set_status-IsSpent, set_credential_status-IsSpent, mark_activated-IsSpent,
  revoke_all-IsSpent, revoke-IsSpent, touch-IsSpent, create_user-IsSpent, create_session-IsSpent,
}

ruleset spent_rules = (
  keeps_rules, mark_consumed-IsSpent, revoke_superseded-IsSpent, create-IsSpent, audit-IsSpent,
  set_password-IsSpent, set_status-IsSpent, set_credential_status-IsSpent, mark_activated-IsSpent,
  revoke_all-IsSpent, revoke-IsSpent, touch-IsSpent, create_user-IsSpent, create_session-IsSpent,
)

module _ (hash : Text) (π : Platform) where
  normalize_username-IsSpent : (raw : Text) → Keeps (IsSpent hash) (normalize_username π raw)
  unfolding normalize_username
  normalize_username-IsSpent raw = search spent_rules

  policy-IsSpent : (lo hi : ℕ) (p : Text) → Keeps (IsSpent hash) (validate_password_policy lo hi p)
  unfolding validate_password_policy
  policy-IsSpent lo hi p = search spent_rules

  module _ (cfg : IdentityConfig) (c : Call) where
    issue_token-IsSpent :
        (t : Text) (i : ℕ) (p : TokenPurpose) → Keeps (IsSpent hash) (issue_token π cfg c t i p)
    unfolding issue_token
    issue_token-IsSpent t i p = search spent_rules

    provision_user-IsSpent :
        (t raw : Text) (r : UserRole) (by : Text)
        → Keeps (IsSpent hash) (provision_user π cfg c t raw r by)
    unfolding provision_user
    provision_user-IsSpent t raw r by =
        search (spent_rules, normalize_username-IsSpent, issue_token-IsSpent) depth 12

    lookup_token-IsSpent :
        (t : Text) (p : Option TokenPurpose) → Keeps (IsSpent hash) (lookup_token π cfg c t p)
    unfolding lookup_token
    lookup_token-IsSpent t p = search spent_rules depth 12

    consume-IsSpent : (i : ℕ) → Keeps (IsSpent hash) (consume_token_atomic π cfg c i)
    unfolding consume_token_atomic
    consume-IsSpent i = search spent_rules depth 12

    activate_commit-IsSpent :
        (t : CredentialTokenRecord) (h : Text) → Keeps (IsSpent hash) (activate_commit π cfg c t h)
    unfolding activate_commit
    activate_commit-IsSpent t h = search (spent_rules, consume-IsSpent) depth 16

    activate-IsSpent : (salt t p : Text) → Keeps (IsSpent hash) (activate π cfg c salt t p)
    unfolding activate
    activate-IsSpent salt t p =
        search (spent_rules, policy-IsSpent, lookup_token-IsSpent, activate_commit-IsSpent) depth 12

    reset_commit-IsSpent :
        (t : CredentialTokenRecord) (h : Text) → Keeps (IsSpent hash) (reset_commit π cfg c t h)
    unfolding reset_commit
    reset_commit-IsSpent t h = search (spent_rules, consume-IsSpent) depth 16

    reset-IsSpent :
        (salt t p : Text) → Keeps (IsSpent hash) (reset_password_with_token π cfg c salt t p)
    unfolding reset_password_with_token
    reset-IsSpent salt t p =
        search (spent_rules, policy-IsSpent, lookup_token-IsSpent, reset_commit-IsSpent) depth 12

    expire-IsSpent :
        (i : ℕ) (p : TokenPurpose) (db : AuthDb)
        → IsSpent hash db
        → IsSpent hash (expire_credential i p db)
    expire-IsSpent i activate_account db s = s
    expire-IsSpent i reset_password db s = set_credential_status-IsSpent hash i _ db s

    admin_reset_password-IsSpent :
        (t raw : Text) → Keeps (IsSpent hash) (admin_reset_password π cfg c t raw)
    unfolding admin_reset_password
    admin_reset_password-IsSpent t raw =
        search (spent_rules, normalize_username-IsSpent, issue_token-IsSpent, expire-IsSpent) depth
          16

    audit_revoked-IsSpent :
        (n i : ℕ) (db : AuthDb) → IsSpent hash db → IsSpent hash (audit_revoked π cfg c n i db)
    audit_revoked-IsSpent n i db s = elim (Bool-cases (nat_beq n 0)) [
      | inl e ↦ rw e s
      | inr e ↦ rw e (audit-IsSpent hash c _ _ _ _ db s)
    ]

    set_enabled-IsSpent : (raw : Text) (b : Bool) → Keeps (IsSpent hash) (set_enabled π cfg c raw b)
    unfolding set_enabled
    set_enabled-IsSpent raw true = search (spent_rules, normalize_username-IsSpent) depth 16
    set_enabled-IsSpent raw false =
        search (spent_rules, normalize_username-IsSpent, audit_revoked-IsSpent) depth 16

    revoke_sessions-IsSpent : (raw : Text) → Keeps (IsSpent hash) (revoke_sessions π cfg c raw)
    unfolding revoke_sessions
    revoke_sessions-IsSpent raw = search (spent_rules, normalize_username-IsSpent) depth 16

  module _ (cfg : SessionConfig) (c : Call) where
    reject_unless-IsSpent :
        (b : Bool) (r : Text) (i : Option ℕ) → Keeps (IsSpent hash) (reject_unless π cfg c b r i)
    reject_unless-IsSpent true r i = search spent_rules
    reject_unless-IsSpent false r i = search spent_rules

    known_user-IsSpent : (o : Option UserRecord) → Keeps (IsSpent hash) (known_user π cfg c o)
    known_user-IsSpent none = search spent_rules
    known_user-IsSpent (some u) = search spent_rules

    login-IsSpent : (t csrf raw p : Text) → Keeps (IsSpent hash) (login π cfg c t csrf raw p)
    unfolding login
    login-IsSpent t csrf raw p =
        search (spent_rules, known_user-IsSpent, reject_unless-IsSpent) depth 16

    end_session-IsSpent : (o : Option SessionRecord) → Keeps (IsSpent hash) (end_session π cfg c o)
    end_session-IsSpent none = search spent_rules
    end_session-IsSpent (some s) = search spent_rules

    log_out-IsSpent : (t : Text) → Keeps (IsSpent hash) (log_out π cfg c t)
    unfolding log_out
    log_out-IsSpent t = search (spent_rules, end_session-IsSpent)

    resolve_session-IsSpent : (t : Option Text) → Keeps (IsSpent hash) (resolve_session π cfg c t)
    unfolding resolve_session
    resolve_session-IsSpent none = search spent_rules
    resolve_session-IsSpent (some t) = search spent_rules depth 16

    require_current-IsSpent :
        (b : Bool) (i : ℕ) → Keeps (IsSpent hash) (require_current π cfg c b i)
    require_current-IsSpent true i = search spent_rules
    require_current-IsSpent false i = search spent_rules

    change_password-IsSpent :
        (salt t old new : Text) (lo hi : ℕ)
        → Keeps (IsSpent hash) (change_password π cfg c salt t old new lo hi)
    unfolding change_password
    change_password-IsSpent salt t old new lo hi =
        search (spent_rules, resolve_session-IsSpent, require_current-IsSpent, policy-IsSpent) depth
          16

prune_expired-IsSpent :
    (hash : Text) (now : ℕ) (db : AuthDb)
    → IsSpent hash db
    → IsSpent hash (Sessions.prune_expired now db)
unfolding Sessions.prune_expired
prune_expired-IsSpent hash now db s = record { row = s.row; found = s.found; consumed = s.consumed }

perform-IsSpent :
    (hash : Text) (k : Config) (c : Call) (o : Operation) (db : AuthDb)
    → IsSpent hash db
    → IsSpent hash (perform k c o db)
unfolding perform
perform-IsSpent hash k c (Operation.provision_user t raw r by) db s =
    (provision_user-IsSpent hash k.platform k.identity c t raw r by).at db s
perform-IsSpent hash k c (Operation.activate_account salt t p) db s =
    (activate-IsSpent hash k.platform k.identity c salt t p).at db s
perform-IsSpent hash k c (Operation.reset_password_with_token salt t p) db s =
    (reset-IsSpent hash k.platform k.identity c salt t p).at db s
perform-IsSpent hash k c (Operation.admin_reset_password t raw) db s =
    (admin_reset_password-IsSpent hash k.platform k.identity c t raw).at db s
perform-IsSpent hash k c (Operation.set_enabled raw b) db s =
    (set_enabled-IsSpent hash k.platform k.identity c raw b).at db s
perform-IsSpent hash k c (Operation.revoke_sessions raw) db s =
    (revoke_sessions-IsSpent hash k.platform k.identity c raw).at db s
perform-IsSpent hash k c (Operation.login t csrf raw p) db s =
    (login-IsSpent hash k.platform k.session c t csrf raw p).at db s
perform-IsSpent hash k c (Operation.log_out t) db s =
    (log_out-IsSpent hash k.platform k.session c t).at db s
perform-IsSpent hash k c (Operation.resolve_session t) db s =
    (resolve_session-IsSpent hash k.platform k.session c t).at db s
perform-IsSpent hash k c (Operation.change_password salt t old new lo hi) db s =
    (change_password-IsSpent hash k.platform k.session c salt t old new lo hi).at db s
perform-IsSpent hash k c Operation.prune_expired db s = prune_expired-IsSpent hash c.now db s

-- What is consumed stays consumed over any run.
pub run-IsSpent :
    (hash : Text) (k : Config) (ops : List (Call × Operation)) (db : AuthDb)
    → IsSpent hash db
    → IsSpent hash (run k ops db)
unfolding run
run-IsSpent hash k [] db s = s
run-IsSpent hash k ((c, o) ∷ rest) db s =
    run-IsSpent hash k rest (perform k c o db) (perform-IsSpent hash k c o db s)
