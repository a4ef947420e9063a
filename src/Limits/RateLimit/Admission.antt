-- ===== src/Limits/RateLimit/Admission.antt =====
-- Over every run of the limiter: how many requests a window lets through.
use zglab_rag.Prelude.{
  ℕ, ◌≤◌, String, ◌≡◌, refl, Bool, true, false, List, [], ◌∷◌, ◌++◌, arith, leb, length, ◌==◌,
  string_eq, Bool-cases, beq_refl, inl, inr,
}
use zglab_rag.Prelude.Dict.{lookup, lookup-insert}
use zglab_rag.Limits.Window.Defs.{active, count_window, seconds}
use zglab_rag.Limits.Window.Tracks.{Tracks, Tracks-wait, Tracks-prune, Tracks-admit, Tracks-start}
use zglab_rag.Limits.RateLimit.Defs.{
  RateLimiter, Outcome, admitted, refusal, check, timestamps, window, fresh,
}

-- The limiter with the requests of one client that it let through, in order.
pub record Monitored : Type 0 where
  pub limiter : RateLimiter
  pub passed : List ℕ

abbrev pub note : Outcome → Bool → ℕ → List ℕ → List ℕ
note admitted true now passed = passed ++ now ∷ []
note _ _ now passed = passed

-- One request, watched for the client `who`.
unfoldable pub attempt : String → String → ℕ → Monitored → Monitored
attempt who client now m =
    let (out, r) = check now client m.limiter in
    record { limiter = r; passed = note out (client == who) now m.passed }

-- Requests are a client and the time of its check.
unfoldable pub attempts : String → List (String × ℕ) → Monitored → Monitored
attempts who [] m = m
attempts who ((client, now) ∷ rest) m = attempts who rest (attempt who client now m)

-- The clock does not go back.
abbrev pub Ordered : ℕ → List (String × ℕ) → Type 0
Ordered last [] = Unit
Ordered last ((_, now) ∷ rest) = (last ≤ now) × Ordered now rest

note-refusal :
    (b : Bool) (now w later : ℕ) (ts passed : List ℕ)
    → note (refusal now w ts) b later passed ≡ passed
unfolding refusal
note-refusal b now w later [] passed = refl
note-refusal b now w later (t ∷ ts) passed = refl

abbrev Holds : String → ℕ → ℕ → ℕ → Monitored → Type 0
Holds who n w last m =
    (m.limiter.max_requests ≡ n)
    × (m.limiter.window_seconds ≡ w)
    × Tracks m.limiter.max_requests (window m.limiter) last (timestamps m.limiter who) m.passed

module _ (who : String) (n w last now : ℕ) (m : Monitored) (h : last ≤ now) where
  abbrev recent : String → List ℕ
  recent client = active now (window m.limiter) (timestamps m.limiter client)

  Holds-attempt_self : Holds who n w last m → Holds who n w now (attempt who who now m)
  unfolding attempt check
  Holds-attempt_self t = elim (Bool-cases (leb m.limiter.max_requests (length (recent who)))) [
    | inl full ↦ rw (full, lookup-insert, beq_refl who, note-refusal) (t.0, t.1, Tracks-prune t.2 h)
    | inr room ↦
        rw (room, lookup-insert, beq_refl who) (t.0, t.1, Tracks-admit t.2 h (ground arith))
  ]

  Holds-attempt_ne :
      (client : String)
      → (client == who) ≡ false
      → Holds who n w last m
      → Holds who n w now (attempt who client now m)
  unfolding attempt check
  Holds-attempt_ne client other t =
      elim (Bool-cases (leb m.limiter.max_requests (length (recent client)))) [
        | inl full ↦ rw (full, lookup-insert, other, note-refusal) (t.0, t.1, Tracks-wait t.2 h)
        | inr room ↦ rw (room, lookup-insert, other) (t.0, t.1, Tracks-wait t.2 h)
      ]

  Holds-attempt :
      (client : String) → Holds who n w last m → Holds who n w now (attempt who client now m)
  Holds-attempt client t = elim (Bool-cases (client == who)) [
    | inl same ↦ rw ((string_eq.beq_iff client who).0 same) (Holds-attempt_self t)
    | inr other ↦ Holds-attempt_ne client other t
  ]

attempts_bound :
    (who : String) (n w last at : ℕ) (calls : List (String × ℕ)) (m : Monitored)
    → Ordered last calls
    → Holds who n w last m
    → count_window at (seconds w) (attempts who calls m).passed ≤ n
unfolding attempts
attempts_bound who n w last at [] m o t = ground (arith, t.2.bound at, t.0, t.1)
attempts_bound who n w last at ((client, now) ∷ rest) m o t =
    attempts_bound who n w now at rest (attempt who client now m) o.1
      (Holds-attempt who n w last now m o.0 client t)

-- Whatever the clients do, as long as the clock does not go back: of any client, at most
-- `max_requests` requests are let through in any window of `window_seconds`.
pub attempts-le-max_requests :
    (who : String) (n w at : ℕ) (calls : List (String × ℕ))
    → Ordered 0 calls
    → count_window at
        (seconds w)
        (attempts who calls (record { limiter = fresh n w; passed = [] })).passed
      ≤ n
unfolding lookup
attempts-le-max_requests who n w at calls o =
    attempts_bound who n w 0 at calls _ o (refl, refl, Tracks-start n (seconds w))
