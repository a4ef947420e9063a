-- ===== src/Auth/Identity/Consume.antt =====
-- What the two operations that consume a token have checked, and the tables that they leave.
use zglab_rag.Prelude.{
  ℕ, ◌≡◌, refl, sym, ap, ◌∙◌, Bool, true, ◌||◌, Option, none, some, Text, codes,
}
use zglab_rag.Auth.Models.{
  Platform, Call, UserRecord, CredentialTokenRecord, TokenPurpose, activate_account, reset_password,
  status_beq, pending, active, disabled, account_activated, password_changed,
}
use zglab_rag.Auth.Exec.{ok, bind_ok}
use zglab_rag.Auth.Exec.Keeps.{Keeps, keeps_rules}
use zglab_rag.Auth.Db.{AuthDb, record_audit}
use zglab_rag.Auth.Tables.Users
use zglab_rag.Auth.Tables.Tokens
use zglab_rag.Auth.Password.{validate_password_policy}
use zglab_rag.Auth.Identity.{
  IdentityConfig, lookup_token, activate_commit, activate, reset_commit, reset_password_with_token,
}
use zglab_rag.Auth.Identity.Commit.{
  LookedUp, lookup_token_ok, activated_db, activate_commit_ok, reset_db, reset_commit_ok,
}

-- The checks before the transactions write nothing.
policy-Keeps :
    (lo hi : ℕ) (p : Text) (db : AuthDb) → Keeps (λ s. s ≡ db) (validate_password_policy lo hi p)
unfolding validate_password_policy
policy-Keeps lo hi p db = search keeps_rules

policy_same :
    (lo hi : ℕ) (p : Text) (db s : AuthDb) (x : Unit {0})
    → validate_password_policy lo hi p db ≡ (ok x, s)
    → db ≡ s
policy_same lo hi p db s x h = sym ((policy-Keeps lo hi p db).at db refl) ∙ ap (λ r. r.1) h

module _ (π : Platform) (cfg : IdentityConfig) (c : Call) where
  lookup-Keeps :
      (token : Text) (p : Option TokenPurpose) (db : AuthDb)
      → Keeps (λ s. s ≡ db) (lookup_token π cfg c token p)
  unfolding lookup_token
  lookup-Keeps token p db = search keeps_rules depth 12

  -- What a successful consumption has found and written.
  pub record Consumed (purpose : TokenPurpose) (token : Text) (allowed : UserRecord → Bool)
      (after : CredentialTokenRecord → UserRecord → AuthDb) (db : AuthDb) (db' : AuthDb)
      : Type 0 where
    pub row : CredentialTokenRecord
    pub looked_up : LookedUp π cfg c token (some purpose) db row
    pub single : Tokens.consumed_count row.id db ≡ 1
    pub user : UserRecord
    pub known : Users.get_by_id row.user_id db ≡ some user
    pub permitted : allowed user ≡ true
    pub written : db' ≡ after row user

  -- `w` is the database with the audit row.
  activated :
      (salt token password : Text) (db s₁ s₂ s₃ db' : AuthDb) (t : CredentialTokenRecord)
      (u : UserRecord)
      → db ≡ s₁
      → lookup_token π cfg c token (some activate_account) s₁ ≡ (ok t, s₂)
      → activate_commit π cfg c t (π.hash_password salt password) s₂ ≡ (ok u, s₃)
      → record_audit c account_activated (codes "ok") (some u.id) none s₃ ≡ db'
      → Consumed activate_account token
          (λ u. status_beq u.status pending || status_beq u.status disabled)
          (λ t u.
            record_audit c account_activated
              (codes "ok")
              (some u.id)
              none
              (activated_db π cfg c t (π.hash_password salt password) u db))
          db
          db'
  activated salt token password db s₁ s₂ s₃ db' t u same looked committed w =
      let h = π.hash_password salt password in
      let l =
        lookup_token_ok π cfg c token (some activate_account) db s₂ t
          (ap (lookup_token π cfg c token (some activate_account)) same ∙ looked) in
      let k =
        activate_commit_ok π cfg c t h db s₃ u (ap (activate_commit π cfg c t h) l.1 ∙ committed) in
      record {
        row = t;
        looked_up = l.0;
        single = k.0;
        user = u;
        known = k.1;
        permitted = k.2;
        written = sym w ∙ ap (record_audit c account_activated (codes "ok") (some u.id) none) k.3;
      }

  -- `w` is the database with the audit row.
  reset :
      (salt token password : Text) (db s₁ s₂ s₃ db' : AuthDb) (t : CredentialTokenRecord)
      (u : UserRecord)
      → db ≡ s₁
      → lookup_token π cfg c token (some reset_password) s₁ ≡ (ok t, s₂)
      → reset_commit π cfg c t (π.hash_password salt password) s₂ ≡ (ok u, s₃)
      → record_audit c password_changed (codes "ok_via_reset_token") (some u.id) none s₃ ≡ db'
      → Consumed reset_password token
          (λ u. status_beq u.status active)
          (λ t u.
            record_audit c password_changed
              (codes "ok_via_reset_token")
              (some u.id)
              none
              (reset_db π cfg c t (π.hash_password salt password) u db))
          db
          db'
  reset salt token password db s₁ s₂ s₃ db' t u same looked committed w =
      let h = π.hash_password salt password in
      let l =
        lookup_token_ok π cfg c token (some reset_password) db s₂ t
          (ap (lookup_token π cfg c token (some reset_password)) same ∙ looked) in
      let k = reset_commit_ok π cfg c t h db s₃ u (ap (reset_commit π cfg c t h) l.1 ∙ committed) in
      record {
        row = t;
        looked_up = l.0;
        single = k.0;
        user = u;
        known = k.1;
        permitted = k.2;
        written =
            sym w
            ∙ ap (record_audit c password_changed (codes "ok_via_reset_token") (some u.id) none)
                k.3;
      }

  module _ (salt token password : Text) (db db' : AuthDb) (r : Option UserRecord) where
    -- A successful activation has found a live activation token of a pending or disabled user; it
    -- writes the password, the credential, the status, the token's end and an audit row.
    pub activate_ok :
        activate π cfg c salt token password db ≡ (ok r, db')
        → Consumed activate_account token
            (λ u. status_beq u.status pending || status_beq u.status disabled)
            (λ t u.
              record_audit c account_activated
                (codes "ok")
                (some u.id)
                none
                (activated_db π cfg c t (π.hash_password salt password) u db))
            db
            db'
    unfolding activate
    activate_ok h =
        let lo = cfg.password_min_length in
        let hi = cfg.password_max_length in
        let (x, s₁, policy, h₁) = bind_ok _ r db' (validate_password_policy lo hi password) db h in
        let (t, s₂, looked, h₂) =
          bind_ok _ r db' (lookup_token π cfg c token (some activate_account)) s₁ h₁ in
        let (u, s₃, committed, h₃) =
          bind_ok _ r db' (activate_commit π cfg c t (π.hash_password salt password)) s₂ h₂ in
        activated salt token password db s₁ s₂ s₃ db' t u
          (policy_same lo hi password db s₁ x policy) looked committed (ap (λ p. p.1) h₃)

    -- A successful reset has found a live reset token of an active user; it writes the password, the
    -- credential, the end of every session and of the token, and an audit row.
    pub reset_ok :
        reset_password_with_token π cfg c salt token password db ≡ (ok r, db')
        → Consumed reset_password token
            (λ u. status_beq u.status active)
            (λ t u.
              record_audit c password_changed
                (codes "ok_via_reset_token")
                (some u.id)
                none
                (reset_db π cfg c t (π.hash_password salt password) u db))
            db
            db'
    unfolding reset_password_with_token
    reset_ok h =
        let lo = cfg.password_min_length in
        let hi = cfg.password_max_length in
        let (x, s₁, policy, h₁) = bind_ok _ r db' (validate_password_policy lo hi password) db h in
        let (t, s₂, looked, h₂) =
          bind_ok _ r db' (lookup_token π cfg c token (some reset_password)) s₁ h₁ in
        let (u, s₃, committed, h₃) =
          bind_ok _ r db' (reset_commit π cfg c t (π.hash_password salt password)) s₂ h₂ in
        reset salt token password db s₁ s₂ s₃ db' t u (policy_same lo hi password db s₁ x policy)
          looked committed (ap (λ p. p.1) h₃)
