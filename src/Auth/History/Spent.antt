-- ===== src/Auth/History/Spent.antt =====
-- A token works once: what has been consumed stays consumed, whatever happens afterwards.
use zglab_rag.Prelude.{
  ℕ, ◌≡◌, refl, ap, ◌∙◌, Bool, false, Option, some, Text, arith, ◌==◌, nat_eq, text_eq,
  Option-cases, inl, inr,
}
use zglab_rag.Prelude.Rows.{find-append, find-update, map_option, change}
use zglab_rag.Auth.Models.{
  Call, UserRole, SessionRecord, CredentialTokenRecord, CredentialStatus, TokenPurpose, UserStatus,
  AuditEvent,
}
use zglab_rag.Auth.Exec.Keeps.{Keeps}
use zglab_rag.Auth.Db.{AuthDb, record_audit}
use zglab_rag.Auth.Tables.Users
use zglab_rag.Auth.Tables.Sessions
use zglab_rag.Auth.Tables.Sessions.{is_null}
use zglab_rag.Auth.Tables.Tokens

-- The token of the digest `hash` has been consumed.
pub record IsSpent (hash : Text) (db : AuthDb) : Type 0 where
  pub row : CredentialTokenRecord
  pub found : Tokens.find_by_hash hash db ≡ some row
  pub consumed : is_null row.consumed_at ≡ false

module _ (hash : Text) where
  -- Only the tokens matter.
  same_tokens : {db db' : AuthDb} → db'.tokens ≡ db.tokens → IsSpent hash db → IsSpent hash db'
  same_tokens e s = record { row = s.row; found = rw e s.found; consumed = s.consumed }

  pub update_tokens-IsSpent :
      (q : CredentialTokenRecord → Bool) (f : CredentialTokenRecord → CredentialTokenRecord)
      (db : AuthDb)
      → ((t : CredentialTokenRecord) → (f t).token_hash ≡ t.token_hash)
      → ((t : CredentialTokenRecord)
          → is_null t.consumed_at ≡ false
          → is_null (change q f t).consumed_at ≡ false)
      → IsSpent hash db
      → IsSpent hash (Tokens.update_tokens q f db)
  unfolding Tokens.update_tokens
  update_tokens-IsSpent q f db key stays s = record {
    row = change q f s.row;
    found =
        find-update (λ t. t.token_hash == hash) q f db.tokens (λ t. rw (key t))
        ∙ ap (map_option (change q f)) s.found;
    consumed = stays s.row s.consumed;
  }

  pub mark_consumed-IsSpent :
      (i now : ℕ) (db : AuthDb) → IsSpent hash db → IsSpent hash (Tokens.mark_consumed i now db)
  unfolding Tokens.mark_consumed
  mark_consumed-IsSpent i now db s =
      update_tokens-IsSpent (Tokens.is_unconsumed i) (λ t. record t { consumed_at = some now }) db
        (λ t. refl) (λ t h. ground arith) s

  pub revoke_superseded-IsSpent :
      (i : ℕ) (p : TokenPurpose) (now : ℕ) (db : AuthDb)
      → IsSpent hash db
      → IsSpent hash (Tokens.revoke_superseded i p now db)
  unfolding Tokens.revoke_superseded
  revoke_superseded-IsSpent i p now db s =
      update_tokens-IsSpent _ (λ t. record t { revoked_at = some now }) db (λ t. refl)
        (λ t h. ground arith) s

  pub create-IsSpent : (t : CredentialTokenRecord) → Keeps (IsSpent hash) (Tokens.create t)
  unfolding Tokens.create
  create-IsSpent t = record {
    at = λ db s. elim (Option-cases (Tokens.find_by_hash t.token_hash db)) [
      | inl e ↦
          rw e (record { row = s.row; found = rw (find-append, s.found); consumed = s.consumed })
      | inr (x, e) ↦ rw e s
    ];
  }

  pub audit-IsSpent :
      (c : Call) (e : AuditEvent) (r : Text) (i : Option ℕ) (h : Option Text) (db : AuthDb)
      → IsSpent hash db
      → IsSpent hash (record_audit c e r i h db)
  unfolding record_audit
  audit-IsSpent c e r i h db = same_tokens refl

  pub set_password-IsSpent :
      (i : ℕ) (h : Text) (now : ℕ) (db : AuthDb)
      → IsSpent hash db
      → IsSpent hash (Users.set_password i h now db)
  unfolding Users.set_password
  set_password-IsSpent i h now db = same_tokens refl

  pub set_status-IsSpent :
      (i : ℕ) (st : UserStatus) (db : AuthDb)
      → IsSpent hash db
      → IsSpent hash (Users.set_status i st db)
  unfolding Users.set_status
  set_status-IsSpent i st db = same_tokens refl

  pub set_credential_status-IsSpent :
      (i : ℕ) (st : CredentialStatus) (db : AuthDb)
      → IsSpent hash db
      → IsSpent hash (Users.set_credential_status i st db)
  unfolding Users.set_credential_status
  set_credential_status-IsSpent i st db = same_tokens refl

  pub mark_activated-IsSpent :
      (i now : ℕ) (db : AuthDb) → IsSpent hash db → IsSpent hash (Users.mark_activated i now db)
  unfolding Users.mark_activated
  mark_activated-IsSpent i now db = same_tokens refl

  pub revoke_all-IsSpent :
      (i : ℕ) (kept : Option ℕ) (now : ℕ) (db : AuthDb)
      → IsSpent hash db
      → IsSpent hash (Sessions.revoke_all_for_user i kept now db)
  unfolding Sessions.revoke_all_for_user
  revoke_all-IsSpent i kept now db = same_tokens refl

  pub revoke-IsSpent :
      (i now : ℕ) (db : AuthDb) → IsSpent hash db → IsSpent hash (Sessions.revoke i now db)
  unfolding Sessions.revoke
  revoke-IsSpent i now db = same_tokens refl

  pub touch-IsSpent :
      (i idle now : ℕ) (db : AuthDb) → IsSpent hash db → IsSpent hash (Sessions.touch i idle now db)
  unfolding Sessions.touch
  touch-IsSpent i idle now db = same_tokens refl

  pub create_user-IsSpent :
      (n : Text) (r : UserRole) (by : Option Text) (now : ℕ)
      → Keeps (IsSpent hash) (Users.create n r by now)
  unfolding Users.create
  create_user-IsSpent n r by now = record {
    at = λ db s. elim (Option-cases (Users.get_by_username n db)) [
      | inl e ↦ rw e (same_tokens refl s)
      | inr (x, e) ↦ rw e s
    ];
  }

  pub create_session-IsSpent : (x : SessionRecord) → Keeps (IsSpent hash) (Sessions.create x)
  unfolding Sessions.create
  create_session-IsSpent x = record {
    at = λ db s. elim (Option-cases (Sessions.find_by_hash x.session_hash db)) [
      | inl e ↦ rw e (same_tokens refl s)
      | inr (y, e) ↦ rw e s
    ];
  }
