-- ===== src/Auth/Session/Roundtrip.antt =====
-- A login gives a token that resolves to its user, until it expires or the user logs out.
use zglab_rag.Prelude.{
  ℕ, ◌+◌, ◌≤◌, ◌<◌, ◌≡◌, refl, true, ◌&&◌, Option, none, some, Text, arith, leb, length, ◌==◌,
  nat_eq, text_eq, Bool-cases, Option-cases, inl, inr, beq_refl,
}
use zglab_rag.Prelude.Rows.{find-append, find-update, next_id, change, map_option}
use zglab_rag.Auth.Models.{Platform, Call, UserRecord, SessionRecord, active, session_error}
use zglab_rag.Auth.Exec.{ok, err}
use zglab_rag.Auth.Db.{AuthDb, record_audit}
use zglab_rag.Auth.Tables.Users.{get_by_id, get_by_username}
use zglab_rag.Auth.Tables.Sessions
use zglab_rag.Auth.Tables.Sessions.{is_null}
use zglab_rag.Auth.Session.{
  SessionConfig, LoginResult, is_live, live_or_none, find_valid_session, new_session, login,
  log_out, resolve_session, principal_of,
}
use zglab_rag.Auth.Session.Login.{login_checked, login_tables}

-- A live session whose owner is an active user resolves.
pub resolve_session_live :
    (π : Platform) (cfg : SessionConfig) (c : Call) (token : Text) (db : AuthDb) (s : SessionRecord)
    (u : UserRecord)
    → (leb 1 (length token) && leb (length token) 256) ≡ true
    → Sessions.find_by_hash (π.sha256 token) db ≡ some s
    → is_live π c.now s ≡ true
    → get_by_id s.user_id db ≡ some u
    → u.status ≡ active
    → (resolve_session π cfg c (some token) db).0 ≡ ok (principal_of u s.id, s)
unfolding resolve_session find_valid_session
resolve_session_live π cfg c token db s u size found live owned is_active =
    rw (size, found, live, owned, is_active)

-- A successful login's token resolves to the principal of the login, at any time from the login on
-- that is before both timeouts, the token being of a length that is accepted. (`ids`: the user that
-- a name finds is the one that its id finds.)
pub login-resolve_session :
    (π : Platform) (cfg : SessionConfig) (c later : Call) (token csrf raw password : Text)
    (db : AuthDb) (r : LoginResult)
    → ((n : Text) (u : UserRecord) → get_by_username n db ≡ some u → get_by_id u.id db ≡ some u)
    → (leb 1 (length token) && leb (length token) 256) ≡ true
    → (login π cfg c token csrf raw password db).0 ≡ ok r
    → later.now < c.now + cfg.idle_timeout
    → later.now < c.now + cfg.absolute_timeout
    → (s : SessionRecord) × ((resolve_session π cfg later
          (some r.session_token)
          (login π cfg c token csrf raw password db).1).0
        ≡ ok (r.principal, s))
login-resolve_session π cfg c later token csrf raw password db r ids size h idle absolute =
    let l = login_checked π cfg c token csrf raw password db r h in
    let (users, sessions) = login_tables π cfg c token csrf raw password db r l in
    let row =
      Sessions.with_id (next_id (λ s. s.id) db.sessions) (new_session π cfg c token csrf l.user) in
    let found : Sessions.find_by_hash (π.sha256 token) (login π cfg c token csrf raw password db).1
        ≡ some row =
      rw (sessions, find-append, l.fresh) (unfold new_session in rw (beq_refl (π.sha256 token))) in
    let owned : get_by_id row.user_id (login π cfg c token csrf raw password db).1 ≡ some l.user =
      rw users (unfold new_session in ids (π.lower (π.strip raw)) l.user l.found) in
    let live : is_live π later.now row ≡ true = unfold new_session in ground arith in
    (
      row,
      rw l.result (
          resolve_session_live π cfg later token (login π cfg c token csrf raw password db).1 row
            l.user size found live owned l.is_active),
    )

-- What is found for a token that has been logged out is dead, then and later.
log_out_dead :
    (π : Platform) (now later : ℕ) (s : SessionRecord) (o : Option SessionRecord)
    → now ≤ later
    → live_or_none π now o ≡ some s
    → live_or_none π later (
        map_option
          (change (λ x. x.id == s.id && is_null x.revoked_at) (Sessions.with_revoked now))
          o)
      ≡ none
log_out_dead π now later s none h e = cc
log_out_dead π now later s (some x) h e = ground arith

expired_dead :
    (π : Platform) (now later : ℕ) (o : Option SessionRecord)
    → now ≤ later
    → live_or_none π now o ≡ none
    → live_or_none π later o ≡ none
expired_dead π now later none h e = refl
expired_dead π now later (some x) h e = ground arith

find_valid_session-log_out :
    (π : Platform) (cfg : SessionConfig) (c : Call) (later : ℕ) (token : Text) (db : AuthDb)
    → c.now ≤ later
    → find_valid_session π later token (log_out π cfg c token db).1 ≡ none
unfolding log_out find_valid_session Sessions.revoke record_audit
find_valid_session-log_out π cfg c later token db h =
    elim (Bool-cases (leb 1 (length token) && leb (length token) 256)) [
      | inr e ↦ rw e
      | inl e ↦
          elim (Option-cases (live_or_none π c.now (Sessions.find_by_hash (π.sha256 token) db))) [
            | inl n ↦ rw (e, n) (expired_dead π c.now later _ h n)
            | inr (s, f) ↦
                rw (e, f)
                  (rw
                    (find-update (λ x. x.session_hash == π.sha256 token)
                      (λ x. x.id == s.id && is_null x.revoked_at) (Sessions.with_revoked c.now)
                      db.sessions (λ x. refl))
                    (log_out_dead π c.now later s _ h f))
          ]
    ]

-- After a logout the token does not resolve, then or later, whether or not it did before.
pub log_out-resolve_session :
    (π : Platform) (cfg : SessionConfig) (c later : Call) (token : Text) (db : AuthDb)
    → c.now ≤ later.now
    → (resolve_session π cfg later (some token) (log_out π cfg c token db).1).0 ≡ err session_error
unfolding resolve_session
log_out-resolve_session π cfg c later token db h =
    rw (find_valid_session-log_out π cfg c later.now token db h)
