-- ===== src/Auth/Identity/Commit.antt =====
-- What the consumption of a token has checked, and what it writes.
use zglab_rag.Prelude.{
  ◌≡◌, sym, ap, ◌∙◌, true, ◌&&◌, ◌||◌, Option, none, some, Text, arith, nat_eq, text_eq, nat_beq,
  leb, ltb, length, Bool-cases, Option-cases, inl, inr,
}
use zglab_rag.Auth.Models.{
  Platform, Call, UserRecord, CredentialTokenRecord, TokenPurpose, status_beq, pending, active,
  disabled, valid,
}
use zglab_rag.Auth.Exec.{ok}
use zglab_rag.Auth.Db.{AuthDb}
use zglab_rag.Auth.Tables.Users
use zglab_rag.Auth.Tables.Sessions
use zglab_rag.Auth.Tables.Tokens
use zglab_rag.Auth.Identity.{
  IdentityConfig, lookup_token, is_usable, consume_token_atomic, activate_commit, reset_commit,
}

module _ (π : Platform) (cfg : IdentityConfig) (c : Call) where
  abbrev pub LookedUp : Text → Option TokenPurpose → AuthDb → CredentialTokenRecord → Type 0
  LookedUp token p db t =
      (Tokens.find_by_hash (π.sha256 token) db ≡ some t)
      × (is_usable p t ≡ true)
      × (ltb c.now t.expires_at ≡ true)

  pub lookup_token_ok :
      (token : Text) (p : Option TokenPurpose) (db db' : AuthDb) (t : CredentialTokenRecord)
      → lookup_token π cfg c token p db ≡ (ok t, db')
      → LookedUp token p db t × (db ≡ db')
  unfolding lookup_token
  lookup_token_ok token p db db' t h =
      elim (Bool-cases (leb 1 (length token) && leb (length token) 256)) [
        | inr e ↦ cc (rw e at h)
        | inl e ↦ elim (Option-cases (Tokens.find_by_hash (π.sha256 token) db)) [
          | inl n ↦ cc (rw (e, n) at h)
          | inr (x, f) ↦ elim (Bool-cases (is_usable p x)) [
            | inr v ↦ cc (rw (e, f, v) at h)
            | inl v ↦ elim (Bool-cases (ltb c.now x.expires_at)) [
              | inr w ↦ cc (rw (e, f, v, w) at h)
              | inl w ↦
                  let k = rw (e, f, v, w) at h in
                  let same : x ≡ t = cc k in
                  ((f ∙ ap some same, rw (← same) v, rw (← same) w), ap (λ r. r.1) k)
            ]
          ]
        ]
      ]

  -- The tables after a successful activation.
  abbrev pub activated_db : CredentialTokenRecord → Text → UserRecord → AuthDb → AuthDb
  activated_db t h u db = Users.mark_activated u.id c.now (
      Users.set_credential_status u.id valid
        (Users.set_password u.id h c.now (Tokens.mark_consumed t.id c.now db)))

  pub activate_commit_ok :
      (t : CredentialTokenRecord) (h : Text) (db db' : AuthDb) (u : UserRecord)
      → activate_commit π cfg c t h db ≡ (ok u, db')
      → (Tokens.consumed_count t.id db ≡ 1)
        × (Users.get_by_id t.user_id db ≡ some u)
        × ((status_beq u.status pending || status_beq u.status disabled) ≡ true)
        × (db' ≡ activated_db t h u db)
  unfolding activate_commit consume_token_atomic Tokens.mark_consumed
  activate_commit_ok t h db db' u e =
      elim (Bool-cases (nat_beq (Tokens.consumed_count t.id db) 1)) [
        | inr n ↦ cc (rw n at e)
        | inl n ↦ elim (Option-cases (Users.get_by_id t.user_id db)) [
          | inl f ↦ cc (rw (n, f) at e)
          | inr (x, f) ↦
              elim (Bool-cases (status_beq x.status pending || status_beq x.status disabled)) [
                | inr v ↦ cc (rw (n, f, v) at e)
                | inl v ↦
                    let k = rw (n, f, v) at e in
                    let same : x ≡ u = cc k in
                    (
                      ground arith,
                      f ∙ ap some same,
                      rw (← same) v,
                      rw (← same) (sym (ap (λ r. r.1) k)),
                    )
              ]
        ]
      ]

  abbrev pub reset_db : CredentialTokenRecord → Text → UserRecord → AuthDb → AuthDb
  reset_db t h u db = Sessions.revoke_all_for_user u.id none c.now (
      Users.set_credential_status u.id valid
        (Users.set_password u.id h c.now (Tokens.mark_consumed t.id c.now db)))

  pub reset_commit_ok :
      (t : CredentialTokenRecord) (h : Text) (db db' : AuthDb) (u : UserRecord)
      → reset_commit π cfg c t h db ≡ (ok u, db')
      → (Tokens.consumed_count t.id db ≡ 1)
        × (Users.get_by_id t.user_id db ≡ some u)
        × (status_beq u.status active ≡ true)
        × (db' ≡ reset_db t h u db)
  unfolding reset_commit consume_token_atomic Tokens.mark_consumed
  reset_commit_ok t h db db' u e = elim (Bool-cases (nat_beq (Tokens.consumed_count t.id db) 1)) [
    | inr n ↦ cc (rw n at e)
    | inl n ↦ elim (Option-cases (Users.get_by_id t.user_id db)) [
      | inl f ↦ cc (rw (n, f) at e)
      | inr (x, f) ↦ elim (Bool-cases (status_beq x.status active)) [
        | inr v ↦ cc (rw (n, f, v) at e)
        | inl v ↦
            let k = rw (n, f, v) at e in
            let same : x ≡ u = cc k in
            (ground arith, f ∙ ap some same, rw (← same) v, rw (← same) (sym (ap (λ r. r.1) k)))
      ]
    ]
  ]
