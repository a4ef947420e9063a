-- ===== src/Limits/Throttle/Admission.antt =====
-- Over every run of the throttle: how many attempts a window lets through to the password check.
use zglab_rag.Prelude.{
  ℕ, ◌≤◌, ◌<◌, ◌≡◌, refl, Bool, true, false, ◌&&◌, List, [], ◌∷◌, if◌then◌else◌, length, ◌==◌, Text,
  text_eq, text_beq_iff,
}
use zglab_rag.Prelude.Dict.{lookup}
use zglab_rag.Limits.Window.Defs.{active, count_window, seconds}
use zglab_rag.Limits.Window.Tracks.{Tracks, Tracks-wait, Tracks-prune, Tracks-admit, Tracks-start}
use zglab_rag.Limits.Throttle.Defs.{
  LoginThrottle, LoginThrottleConfig, check_and_record, times, ip_key, user_key,
}
use zglab_rag.Limits.Throttle.Effects.{
  note, room_lt, let_through, times_of_ip-check, times_of_user-check, config-check,
  let_through-check,
}

-- The throttle with the attempts that it let through from one address and for one user name.
pub record Monitored : Type 0 where
  pub throttle : LoginThrottle
  pub from_ip : List ℕ
  pub for_user : List ℕ

-- One attempt of a run, which has an address, a user name and a time.
pub record Attempt : Type 0 where
  pub ip : Text
  pub username : Text
  pub now : ℕ

module _ (lower : Text → Text) (who_ip who_user : Text) where
  unfoldable pub attempt : Attempt → Monitored → Monitored
  attempt a m =
      let (out, t) = check_and_record lower a.now a.ip a.username m.throttle in
      record {
        throttle = t;
        from_ip = note (let_through out && a.ip == who_ip) a.now m.from_ip;
        for_user = note (let_through out && lower a.username == who_user) a.now m.for_user;
      }

  unfoldable pub attempts : List Attempt → Monitored → Monitored
  attempts [] m = m
  attempts (a ∷ rest) m = attempts rest (attempt a m)

-- The clock does not go back.
abbrev pub Ordered : ℕ → List Attempt → Type 0
Ordered last [] = Unit
Ordered last (a ∷ rest) = (last ≤ a.now) × Ordered a.now rest

-- The times of a key, after a call that is for the key or not, and that lets through or not.
Tracks-note :
    (n w last now : ℕ) (mine ok : Bool) (own stored passed : List ℕ)
    → last ≤ now
    → (mine ≡ true → own ≡ stored)
    → (ok ≡ true → length (active now w own) < n)
    → Tracks n w last stored passed
    → Tracks n w now
        (if mine then note ok now (active now w own) else stored)
        (note (ok && mine) now passed)
Tracks-note n w last now true true own stored passed h e r t =
    rw (e refl) (Tracks-admit t h (rw (e refl) at (r refl)))
Tracks-note n w last now true false own stored passed h e r t = rw (e refl) (Tracks-prune t h)
Tracks-note n w last now false true own stored passed h e r t = Tracks-wait t h
Tracks-note n w last now false false own stored passed h e r t = Tracks-wait t h

module _ (lower : Text → Text) (who_ip who_user : Text) (c : LoginThrottleConfig) where
  abbrev Holds : ℕ → Monitored → Type 0
  Holds last m =
      let k = m.throttle.config in
      (k ≡ c)
      × Tracks k.per_ip_attempts (seconds k.per_ip_window_seconds) last
          (times (ip_key who_ip) m.throttle) m.from_ip
      × Tracks k.per_username_attempts (seconds k.per_username_window_seconds) last
          (times (user_key who_user) m.throttle) m.for_user

  Holds-attempt :
      (last : ℕ) (a : Attempt) (m : Monitored)
      → last ≤ a.now
      → Holds last m
      → Holds a.now (attempt lower who_ip who_user a m)
  unfolding attempt
  Holds-attempt last a m h t =
      let fits = room_lt lower a.now a.ip a.username m.throttle in
      rw (config-check, times_of_ip-check, times_of_user-check, let_through-check)
        (
          t.0,
          Tracks-note _ _ last a.now (a.ip == who_ip) _ _ _ m.from_ip h
              (λ e. rw ((text_beq_iff a.ip who_ip).0 e)) (λ r. (fits r).0) t.1,
          Tracks-note _ _ last a.now (lower a.username == who_user) _ _ _ m.for_user h
              (λ e. rw ((text_beq_iff (lower a.username) who_user).0 e)) (λ r. (fits r).1) t.2,
        )

  Holds-attempts :
      (last : ℕ) (calls : List Attempt) (m : Monitored)
      → Ordered last calls
      → Holds last m
      → (later : ℕ) × Holds later (attempts lower who_ip who_user calls m)
  unfolding attempts
  Holds-attempts last [] m o t = (last, t)
  Holds-attempts last (a ∷ rest) m o t =
      Holds-attempts a.now rest (attempt lower who_ip who_user a m) o.1
        (Holds-attempt last a m o.0 t)

abbrev pub unused : LoginThrottleConfig → Monitored
unused c = record { throttle = record { config = c; attempts = [] }; from_ip = []; for_user = [] }

-- Whatever is attempted, as long as the clock does not go back: in any window of the configured
-- width, at most `per_ip_attempts` attempts from one address and at most `per_username_attempts`
-- attempts for one (lowered) user name reach the password check.
pub attempts-le-limits :
    (lower : Text → Text) (who_ip who_user : Text) (c : LoginThrottleConfig) (at : ℕ)
    (calls : List Attempt)
    → Ordered 0 calls
    → (count_window at
          (seconds c.per_ip_window_seconds)
          (attempts lower who_ip who_user calls (unused c)).from_ip
        ≤ c.per_ip_attempts)
      × (count_window at
            (seconds c.per_username_window_seconds)
            (attempts lower who_ip who_user calls (unused c)).for_user
          ≤ c.per_username_attempts)
unfolding lookup
attempts-le-limits lower who_ip who_user c at calls o =
    let (later, t) =
      Holds-attempts lower who_ip who_user c 0 calls (unused c) o
        (refl, Tracks-start _ _, Tracks-start _ _) in
    (rw t.0 at (t.1.bound at), rw t.0 at (t.2.bound at))
