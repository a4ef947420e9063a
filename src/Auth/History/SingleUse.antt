-- ===== src/Auth/History/SingleUse.antt =====
-- A credential token works once in any run of the service.
use mathlib.Core.Path.{subst}
use zglab_rag.Prelude.{
  ℕ, ◌≡◌, ◌≢◌, refl, sym, ap, ◌∙◌, false, Option, some, List, Text, arith, ◌==◌, nat_eq, text_eq,
}
use zglab_rag.Prelude.Rows.{find-update, map_option, change}
use zglab_rag.Auth.Models.{
  Platform, Call, UserRecord, CredentialTokenRecord, TokenPurpose, activate_account, reset_password,
}
use zglab_rag.Auth.Exec.{Exec, ok}
use zglab_rag.Auth.Db.{AuthDb}
use zglab_rag.Auth.Tables.Sessions.{is_null}
use zglab_rag.Auth.Tables.Tokens
use zglab_rag.Auth.Identity.{IdentityConfig, activate, reset_password_with_token}
use zglab_rag.Auth.Identity.Commit.{LookedUp}
use zglab_rag.Auth.Identity.Consume.{activate_ok, reset_ok}
use zglab_rag.Auth.History.{Operation, Config, run}
use zglab_rag.Auth.History.Spent.{
  IsSpent, audit-IsSpent, set_password-IsSpent, set_credential_status-IsSpent,
  mark_activated-IsSpent, revoke_all-IsSpent,
}
use zglab_rag.Auth.History.Once.{run-IsSpent}

-- Consuming the row of a token spends the token.
mark_consumed_spends :
    (hash : Text) (t : CredentialTokenRecord) (now : ℕ) (db : AuthDb)
    → Tokens.find_by_hash hash db ≡ some t
    → IsSpent hash (Tokens.mark_consumed t.id now db)
unfolding Tokens.mark_consumed
mark_consumed_spends hash t now db h = record {
  row = change (Tokens.is_unconsumed t.id) (λ x. record x { consumed_at = some now }) t;
  found =
      find-update (λ x. x.token_hash == hash) (Tokens.is_unconsumed t.id)
        (λ x. record x { consumed_at = some now }) db.tokens (λ x. refl)
      ∙ ap (map_option _) h;
  consumed = ground arith;
}

module _ (π : Platform) (cfg : IdentityConfig) (c : Call) where
  -- No row of a spent token is one that can be consumed.
  not_usable :
      (token : Text) (p : TokenPurpose) (db : AuthDb) (t : CredentialTokenRecord)
      → IsSpent (π.sha256 token) db
      → LookedUp π cfg c token (some p) db t
      → ⊥
  not_usable token p db t s l =
      let same : s.row ≡ t = cc (s.found, l.0) in
      let gone : is_null t.consumed_at ≡ false =
        ap (λ x. is_null x.consumed_at) (sym same) ∙ s.consumed in
      ground (arith, gone, l.1)

  activate_spends :
      (salt token password : Text) (db db' : AuthDb) (r : Option UserRecord)
      → activate π cfg c salt token password db ≡ (ok r, db')
      → IsSpent (π.sha256 token) db'
  activate_spends salt token password db db' r h =
      let k = activate_ok π cfg c salt token password db db' r h in
      subst (IsSpent (π.sha256 token)) (sym k.written) (
        audit-IsSpent _ c _ _ _ _ _ (
          mark_activated-IsSpent _ _ _ _ (
            set_credential_status-IsSpent _ _ _ _ (
              set_password-IsSpent _ _ _ _ _
                (mark_consumed_spends _ k.row c.now db k.looked_up.0)))))

  reset_spends :
      (salt token password : Text) (db db' : AuthDb) (r : Option UserRecord)
      → reset_password_with_token π cfg c salt token password db ≡ (ok r, db')
      → IsSpent (π.sha256 token) db'
  reset_spends salt token password db db' r h =
      let k = reset_ok π cfg c salt token password db db' r h in
      subst (IsSpent (π.sha256 token)) (sym k.written) (
        audit-IsSpent _ c _ _ _ _ _ (
          revoke_all-IsSpent _ _ _ _ _ (
            set_credential_status-IsSpent _ _ _ _ (
              set_password-IsSpent _ _ _ _ _
                (mark_consumed_spends _ k.row c.now db k.looked_up.0)))))

-- A use of a token, for either purpose.
pub data Use : Type 0 where
  activation reset : Use

unfoldable pub use_token :
    Use → Platform → IdentityConfig → Call → Text → Text → Text → Exec AuthDb (Option UserRecord)
use_token activation π cfg c salt token password = activate π cfg c salt token password
use_token reset π cfg c salt token password = reset_password_with_token π cfg c salt token password

use_token_spends :
    (v : Use) (π : Platform) (cfg : IdentityConfig) (c : Call) (salt token password : Text)
    (db db' : AuthDb) (r : Option UserRecord)
    → use_token v π cfg c salt token password db ≡ (ok r, db')
    → IsSpent (π.sha256 token) db'
unfolding use_token
use_token_spends activation π cfg c salt token password db db' r h =
    activate_spends π cfg c salt token password db db' r h
use_token_spends reset π cfg c salt token password db db' r h =
    reset_spends π cfg c salt token password db db' r h

-- A spent token neither activates an account nor resets a password.
spent_useless :
    (v : Use) (π : Platform) (cfg : IdentityConfig) (c : Call) (salt token password : Text)
    (db db' : AuthDb) (r : Option UserRecord)
    → IsSpent (π.sha256 token) db
    → use_token v π cfg c salt token password db ≢ (ok r, db')
unfolding use_token
spent_useless activation π cfg c salt token password db db' r s h =
    let k = activate_ok π cfg c salt token password db db' r h in
    not_usable π cfg c token activate_account db k.row s k.looked_up
spent_useless reset π cfg c salt token password db db' r s h =
    let k = reset_ok π cfg c salt token password db db' r h in
    not_usable π cfg c token reset_password db k.row s k.looked_up

-- A credential token is used at most once: after it has activated an account or reset a password,
-- and after any further operations of the service, it does neither again.
pub token_single_use :
    (k : Config) (first second : Use) (c later : Call) (token salt password salt' password' : Text)
    (db used later_db : AuthDb) (ops : List (Call × Operation)) (r r' : Option UserRecord)
    → use_token first k.platform k.identity c salt token password db ≡ (ok r, used)
    → use_token second k.platform k.identity later salt' token password' (run k ops used)
      ≢ (ok r', later_db)
token_single_use k first second c later token salt password salt' password' db used later_db ops r
      r' h =
    spent_useless second k.platform k.identity later salt' token password' (run k ops used) later_db
      r'
      (run-IsSpent (k.platform.sha256 token) k ops used
        (use_token_spends first k.platform k.identity c salt token password db used r h))
