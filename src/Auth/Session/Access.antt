-- ===== src/Auth/Session/Access.antt =====
-- When a session opens the door: what `resolve_session` needs, and what shuts it.
use zglab_rag.Prelude.{
  ℕ, suc, ◌≤◌, length, refl, Option, none, ◌↔◌, ◌≡◌, ◌≢◌, sym, ap, ◌∙◌, true, some, Text, arith,
  nat_eq, text_eq, Option-cases, inl, inr,
}
use zglab_rag.Auth.Models.{
  Platform, Call, UserRecord, SessionRecord, AuthenticatedPrincipal, active,
}
use zglab_rag.Auth.Exec.{ok}
use zglab_rag.Auth.Db.{AuthDb}
use zglab_rag.Auth.Tables.Users.{get_by_id}
use zglab_rag.Auth.Tables.Sessions
use zglab_rag.Auth.Tables.Sessions.{is_null}
use zglab_rag.Auth.Tables.Laws.{get_by_id_id}
use zglab_rag.Auth.Session.{SessionConfig, is_live, find_valid_session, resolve_session}

-- When a token resolves: its length is accepted, its row is the one of its digest, not revoked and before
-- both of its ends, and the row's owner is an active user, who is the principal.
pub record Opens (π : Platform) (now : ℕ) (token : Text) (db : AuthDb) (p : AuthenticatedPrincipal)
    (s : SessionRecord) : Type 0 where
  pub nonempty : 1 ≤ length token
  pub bounded : length token ≤ 256
  pub found : Sessions.find_by_hash (π.sha256 token) db ≡ some s
  pub unrevoked : s.revoked_at ≡ none
  pub not_idle : suc now ≤ s.idle_expires_at
  pub not_ended : suc now ≤ s.absolute_expires_at
  pub owner : UserRecord
  pub owned : get_by_id s.user_id db ≡ some owner
  pub is_active : owner.status ≡ active
  pub principal : p ≡ record {
    user_id = owner.id;
    username = owner.username;
    role = owner.role;
    session_id = s.id;
  }

is_null-none : (o : Option ℕ) → is_null o ≡ true → o ≡ none
is_null-none none h = refl
is_null-none (some t) h = cc

module _ (π : Platform) (now : ℕ) (token : Text) (db : AuthDb) where
  find_valid_session_found :
      (s : SessionRecord)
      → find_valid_session π now token db ≡ some s
      → ((1 ≤ length token) × (length token ≤ 256))
        × (Sessions.find_by_hash (π.sha256 token) db ≡ some s)
        × (is_live π now s ≡ true)
  unfolding find_valid_session
  find_valid_session_found s h = ground arith

  live_bounds :
      (s : SessionRecord)
      → is_live π now s ≡ true
      → (s.revoked_at ≡ none) × (suc now ≤ s.idle_expires_at) × (suc now ≤ s.absolute_expires_at)
  live_bounds s h = (is_null-none s.revoked_at (ground (arith, h)), ground arith, ground arith)

  find_valid_session-Opens :
      (p : AuthenticatedPrincipal) (s : SessionRecord)
      → Opens π now token db p s
      → find_valid_session π now token db ≡ some s
  unfolding find_valid_session
  find_valid_session-Opens p s o =
      rw (o.found, o.unrevoked) (ground (arith, o.nonempty, o.bounded, o.not_idle, o.not_ended))

module _ (π : Platform) (cfg : SessionConfig) (c : Call) (token : Text) (db : AuthDb)
    (p : AuthenticatedPrincipal) (s : SessionRecord) where
  resolved-Opens :
      (resolve_session π cfg c (some token) db).0 ≡ ok (p, s) → Opens π c.now token db p s
  unfolding resolve_session
  resolved-Opens h = elim (Option-cases (find_valid_session π c.now token db)) [
    | inl e ↦ ground arith
    | inr (x, e) ↦ elim (Option-cases (get_by_id x.user_id db)) [
      | inl e' ↦ ground arith
      | inr (u, e') ↦
          let same : x ≡ s = ground arith in
          let (lengths, found, live) = find_valid_session_found π c.now token db x e in
          let bounds = live_bounds π c.now token db s (rw (← same) live) in
          record {
            nonempty = lengths.0;
            bounded = lengths.1;
            found = rw (← same) found;
            unrevoked = bounds.0;
            not_idle = bounds.1;
            not_ended = bounds.2;
            owner = u;
            owned = rw (← same) e';
            is_active = ground arith;
            principal = ground arith;
          }
    ]
  ]

  Opens-resolved :
      Opens π c.now token db p s → (resolve_session π cfg c (some token) db).0 ≡ ok (p, s)
  unfolding resolve_session
  Opens-resolved o =
      rw (find_valid_session-Opens π c.now token db p s o, o.owned, o.is_active, o.principal) refl

  -- A token resolves to a principal and a session row exactly when: its length is from 1 to 256, the row is
  -- the one of its digest, it is not revoked, the time is before its idle end and before its absolute end,
  -- and the row's owner is a user whose status is active, whose id, name and role the principal has.
  pub resolve_session-Opens :
      ((resolve_session π cfg c (some token) db).0 ≡ ok (p, s)) ↔ Opens π c.now token db p s
  resolve_session-Opens = (resolved-Opens, Opens-resolved)

-- Nobody resolves as a user whose row is not active.
pub resolve_session_inactive :
    (π : Platform) (cfg : SessionConfig) (c : Call) (token : Text) (db : AuthDb)
    (p : AuthenticatedPrincipal) (s : SessionRecord) (i : ℕ)
    → ((u : UserRecord) → get_by_id i db ≡ some u → u.status ≢ active)
    → (resolve_session π cfg c (some token) db).0 ≡ ok (p, s)
    → p.user_id ≢ i
resolve_session_inactive π cfg c token db p s i inactive h same =
    let o = (resolve_session-Opens π cfg c token db p s).0 h in
    let e = get_by_id_id s.user_id db o.owner o.owned in
    let owner_id : s.user_id ≡ i = ground (arith, o.principal, e) in
    inactive o.owner (ap (λ j. get_by_id j db) (sym owner_id) ∙ o.owned) o.is_active
