-- ===== src/Limits/RateLimit/Retry.antt =====
-- What a client is told: the time after which it may try again, and the requests that remain.
use zglab_rag.Prelude.{
  ℕ, ◌+◌, ◌≤◌, ◌<◌, String, ◌≡◌, refl, sym, ◌∙◌, true, false, none, some, List, [], ◌∷◌, ◌++◌,
  arith, leb, if◌then◌else◌, length, ◌==◌, string_eq, beq_refl, Bool-cases, inl, inr, length-append,
}
use zglab_rag.Prelude.Dict.{lookup, lookup-insert, lookup-remove}
use zglab_rag.Limits.Window.Defs.{
  active, retry_after, active-active, active-append, length-active-lt, length-active-le,
}
use zglab_rag.Limits.RateLimit.Defs.{
  RateLimiter, admitted, rate_limit_exceeded, refusal, check, reset, remaining, timestamps, window,
}

module _ (now : ℕ) (client : String) (r : RateLimiter) where
  abbrev recent : List ℕ
  recent = active now (window r) (timestamps r client)

  pub check_full :
      leb r.max_requests (length recent) ≡ true
      → ((check now client r).0 ≡ refusal now (window r) recent)
        × (timestamps (check now client r).1 client ≡ recent)
  unfolding check
  check_full full = rw (full, lookup-insert, beq_refl client) (refl, refl)

  pub check_room :
      leb r.max_requests (length recent) ≡ false
      → ((check now client r).0 ≡ admitted)
        × (timestamps (check now client r).1 client ≡ recent ++ now ∷ [])
  unfolding check
  check_room room = rw (room, lookup-insert, beq_refl client) (refl, refl)

  pub check_config :
      ((check now client r).1.max_requests ≡ r.max_requests)
      × ((check now client r).1.window_seconds ≡ r.window_seconds)
  unfolding check
  check_config = ground arith

refusal_wait :
    (now w wait later : ℕ) (ts : List ℕ)
    → refusal now w ts ≡ rate_limit_exceeded wait
    → now + wait ≤ later
    → length (active later w ts) < length ts
unfolding refusal retry_after
refusal_wait now w wait later [] e h = ground arith
refusal_wait now w wait later (t ∷ ts) e h = ground (arith, length-active-lt later w t ts)

-- Only a full window refuses.
check_refused :
    (now : ℕ) (client : String) (r : RateLimiter) (wait : ℕ)
    → (check now client r).0 ≡ rate_limit_exceeded wait
    → leb r.max_requests (length (recent now client r)) ≡ true
check_refused now client r wait e =
    elim (Bool-cases (leb r.max_requests (length (recent now client r)))) [
      | inl full ↦ full
      | inr room ↦ ground (arith, check_room now client r room)
    ]

-- A client that was refused, and had no more than `max_requests` requests on record, is let through
-- when it comes back after the time that it was told to wait.
pub check-retry_after :
    (now : ℕ) (client : String) (r : RateLimiter) (wait later : ℕ)
    → length (timestamps r client) ≤ r.max_requests
    → (check now client r).0 ≡ rate_limit_exceeded wait
    → now + wait ≤ later
    → (check later client (check now client r).1).0 ≡ admitted
check-retry_after now client r wait later few e h =
    let full = check_refused now client r wait e in
    let (out, kept) = check_full now client r full in
    let (most, width) = check_config now client r in
    let freed = refusal_wait now (window r) wait later (recent now client r) (sym out ∙ e) h in
    (check_room later client (check now client r).1 (
      rw (kept, most, width)
        (ground (arith, freed, length-active-le now (window r) (timestamps r client))))).0

-- A check of one client leaves the others alone.
timestamps-check_ne :
    (now : ℕ) (client other : String) (r : RateLimiter)
    → (client == other) ≡ false
    → timestamps (check now client r).1 other ≡ timestamps r other
unfolding check
timestamps-check_ne now client other r ne =
    elim (Bool-cases (leb r.max_requests (length (recent now client r)))) [
      | inl full ↦ rw (full, lookup-insert, ne)
      | inr room ↦ rw (room, lookup-insert, ne)
    ]

check_admitted :
    (now : ℕ) (client : String) (r : RateLimiter)
    → (check now client r).0 ≡ admitted
    → leb r.max_requests (length (recent now client r)) ≡ false
unfolding refusal
check_admitted now client r e =
    elim (Bool-cases (leb r.max_requests (length (recent now client r)))) [
      | inl full ↦ ground (arith, check_full now client r full)
      | inr room ↦ room
    ]

-- The request that was just recorded is active.
length-active_recorded :
    (now w : ℕ) (ts : List ℕ)
    → 0 < w
    → length (active now w (active now w ts ++ now ∷ [])) ≡ length (active now w ts) + 1
length-active_recorded now w ts h =
    rw (active-append, active-active now now w ts (omega arith), length-append)
      (unfold active in ground arith)

-- After a check that let the request through, one request fewer remains at that moment (the window
-- being positive); the count of every other client is as before.
pub remaining-check :
    (now : ℕ) (client other : String) (r : RateLimiter)
    → 0 < r.window_seconds
    → (check now client r).0 ≡ admitted
    → remaining now other (check now client r).1 + (if client == other then 1 else 0)
      ≡ remaining now other r
unfolding remaining
remaining-check now client other r w e =
    let (most, width) = check_config now client r in
    let room = check_admitted now client r e in
    elim (Bool-cases (client == other)) [
      | inl same ↦
          let p = (string_eq.beq_iff client other).0 same in
          rw (← p, beq_refl client, most, width, (check_room now client r room).1)
            (ground (
              arith,
              length-active_recorded now (window r) (timestamps r client) (omega arith),
              room,
            ))
      | inr ne ↦ rw (ne, most, width, timestamps-check_ne now client other r ne) (omega arith)
    ]

-- A reset of a client gives it all its requests back and leaves the others alone; a reset of all
-- gives every client all its requests back.
pub remaining-reset :
    (now : ℕ) (client other : String) (r : RateLimiter)
    → (remaining now other (reset (some client) r)
        ≡ (if client == other then r.max_requests else remaining now other r))
      × (remaining now other (reset none r) ≡ r.max_requests)
unfolding remaining reset active lookup
remaining-reset now client other r = elim (Bool-cases (client == other)) [
  | inl same ↦ (rw (same, lookup-remove, same) (omega arith), omega arith)
  | inr ne ↦ (rw (ne, lookup-remove, ne), omega arith)
]
