-- ===== src/Auth/Session/Login.antt =====
-- What `login` needs, and the session that it makes.
use zglab_rag.Prelude.{
  ℕ, ◌≡◌, refl, sym, ap, ◌∙◌, Bool, true, false, Option, none, some, [], ◌∷◌, ◌++◌, Text, codes,
  arith, nat_eq, text_eq, Bool-cases, inl, inr,
}
use zglab_rag.Prelude.Rows.{next_id}
use zglab_rag.Auth.Models.{
  Platform, Call, UserRecord, SessionRecord, status_beq, active, valid, reset_required,
  invalid_credentials,
}
use zglab_rag.Auth.Exec.{ok, err, bind_ok, pure}
use zglab_rag.Auth.Db.{AuthDb, record_audit}
use zglab_rag.Auth.Tables.Users.{get_by_username}
use zglab_rag.Auth.Tables.Sessions
use zglab_rag.Auth.Tables.Sessions.{is_null}
use zglab_rag.Auth.Session.{
  SessionConfig, LoginResult, known_user, reject_unless, account_result, verified, new_session,
  login, principal_of, csrf_token_for, credential_is_valid,
}

module _ (π : Platform) (cfg : SessionConfig) (c : Call) (token csrf raw password : Text)
    (db : AuthDb) where
  -- A user whose password was reset does not log in, whatever the password.
  pub login_reset_required :
      (u : UserRecord)
      → get_by_username (π.lower (π.strip raw)) db ≡ some u
      → u.credential_status ≡ reset_required
      → (login π cfg c token csrf raw password db).0 ≡ err invalid_credentials
  unfolding login
  login_reset_required u found required = elim (Bool-cases (verified π u.password_hash password)) [
    | inl e ↦ rw (found, e, required)
    | inr e ↦ rw (found, e)
  ]

  -- The result for a user and the row of the session.
  abbrev pub result_of : UserRecord → SessionRecord → LoginResult
  result_of u x = record {
    principal = principal_of u x.id;
    session_token = token;
    csrf_token = csrf_token_for π x;
  }

  -- What a successful login has checked.
  pub record LoggedIn (r : LoginResult) : Type 0 where
    pub user : UserRecord
    pub found : get_by_username (π.lower (π.strip raw)) db ≡ some user
    pub checked : verified π user.password_hash password ≡ true
    pub credential : user.credential_status ≡ valid
    pub is_active : user.status ≡ active
    pub fresh : Sessions.find_by_hash (π.sha256 token) db ≡ none
    pub result :
        r
        ≡ result_of user (
            Sessions.with_id
              (next_id (λ s. s.id) db.sessions)
              (new_session π cfg c token csrf user))

  credential_valid :
      (u : UserRecord)
      → credential_is_valid u.credential_status ≡ true
      → u.credential_status ≡ valid
  credential_valid u h = ground arith

  status_active : (u : UserRecord) → status_beq u.status active ≡ true → u.status ≡ active
  status_active u h = ground arith

  known_user_ok :
      (o : Option UserRecord) (s s' : AuthDb) (u : UserRecord)
      → known_user π cfg c o s ≡ (ok u, s')
      → (o ≡ some u) × (s ≡ s')
  known_user_ok none s s' u h = cc
  known_user_ok (some x) s s' u h = (cc, ap (λ p. p.1) h)

  reject_unless_ok :
      (b : Bool) (t : Text) (i : Option ℕ) (s s' : AuthDb) (x : Unit {0})
      → reject_unless π cfg c b t i s ≡ (ok x, s')
      → (b ≡ true) × (s ≡ s')
  reject_unless_ok true t i s s' x h = (refl, ap (λ p. p.1) h)
  reject_unless_ok false t i s s' x h = cc

  created :
      (o : Option SessionRecord) (x y : SessionRecord) (s s' : AuthDb)
      → Sessions.insert_new o x s ≡ (ok y, s')
      → (o ≡ none) × (x ≡ y)
  created none x y s s' h = (refl, cc)
  created (some z) x y s s' h = cc

  returned : (a r : LoginResult) (s s' : AuthDb) → pure a s ≡ (ok r, s') → a ≡ r
  returned a r s s' h = cc

  inserted :
      (u : UserRecord) (x : SessionRecord) (s s' : AuthDb)
      → db ≡ s
      → Sessions.create (new_session π cfg c token csrf u) s ≡ (ok x, s')
      → (Sessions.find_by_hash (π.sha256 token) db ≡ none)
        × (Sessions.with_id (next_id (λ s. s.id) db.sessions) (new_session π cfg c token csrf u)
            ≡ x)
  unfolding Sessions.create new_session
  inserted u x s s' same k =
      created (Sessions.find_by_hash (π.sha256 token) db)
        (Sessions.with_id (next_id (λ s. s.id) db.sessions) (new_session π cfg c token csrf u)) x db
        s' (ap (Sessions.create (new_session π cfg c token csrf u)) same ∙ k)

  logged_in :
      (u : UserRecord) (x : SessionRecord) (r : LoginResult) (s s' : AuthDb)
      → get_by_username (π.lower (π.strip raw)) db ≡ some u
      → verified π u.password_hash password ≡ true
      → credential_is_valid u.credential_status ≡ true
      → status_beq u.status active ≡ true
      → db ≡ s
      → Sessions.create (new_session π cfg c token csrf u) s ≡ (ok x, s')
      → result_of u x ≡ r
      → LoggedIn r
  logged_in u x r s s' found checked credential status same k e =
      let row = inserted u x s s' same k in
      record {
        user = u;
        found = found;
        checked = checked;
        credential = credential_valid u credential;
        is_active = status_active u status;
        fresh = row.0;
        result = sym e ∙ ap (result_of u) (sym row.1);
      }

  pub login_checked :
      (r : LoginResult) → (login π cfg c token csrf raw password db).0 ≡ ok r → LoggedIn r
  unfolding login
  login_checked r h =
      let s' = (login π cfg c token csrf raw password db).1 in
      let (u, s₁, k₁, h₁) =
        bind_ok _ r s' (known_user π cfg c (get_by_username (π.lower (π.strip raw)) db)) db
          (λ i. (h i, s')) in
      let (x₂, s₂, k₂, h₂) =
        bind_ok _ r s'
          (reject_unless π cfg c (verified π u.password_hash password) (codes "invalid_password")
            (some u.id))
          s₁ h₁ in
      let (x₃, s₃, k₃, h₃) =
        bind_ok _ r s'
          (reject_unless π cfg c (credential_is_valid u.credential_status)
            (codes "credential_reset_required") (some u.id))
          s₂ h₂ in
      let (x₄, s₄, k₄, h₄) =
        bind_ok _ r s'
          (reject_unless π cfg c (status_beq u.status active) (account_result u.status) (some u.id))
          s₃ h₃ in
      let (x₅, s₅, k₅, h₅) =
        bind_ok _ r s' (Sessions.create (new_session π cfg c token csrf u)) s₄ h₄ in
      let o₁ = known_user_ok (get_by_username (π.lower (π.strip raw)) db) db s₁ u k₁ in
      let o₂ =
        reject_unless_ok (verified π u.password_hash password) (codes "invalid_password")
          (some u.id) s₁ s₂ x₂ k₂ in
      let o₃ =
        reject_unless_ok (credential_is_valid u.credential_status)
          (codes "credential_reset_required") (some u.id) s₂ s₃ x₃ k₃ in
      let o₄ =
        reject_unless_ok (status_beq u.status active) (account_result u.status) (some u.id) s₃ s₄ x₄
          k₄ in
      let same = o₁.1 ∙ o₂.1 ∙ o₃.1 ∙ o₄.1 in
      logged_in u x₅ r s₄ s₅ o₁.0 o₂.0 o₃.0 o₄.0 same k₅ (returned (result_of u x₅) r _ s' h₅)

  -- The tables after a successful login.
  pub login_tables :
      (r : LoginResult) (l : LoggedIn r)
      → ((login π cfg c token csrf raw password db).1.users ≡ db.users)
        × ((login π cfg c token csrf raw password db).1.sessions
            ≡ db.sessions
              ++ Sessions.with_id
                  (next_id (λ s. s.id) db.sessions)
                  (new_session π cfg c token csrf l.user)
                ∷ [])
  unfolding login Sessions.create record_audit
  login_tables r l = rw (l.found, l.checked, l.credential, l.is_active, l.fresh) (refl, refl)
