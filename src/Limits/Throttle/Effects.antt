-- ===== src/Limits/Throttle/Effects.antt =====
-- What one call of `check_and_record` does to the times of an address and of a user name.
use zglab_rag.Prelude.{
  ℕ, ◌<◌, ◌≡◌, refl, Bool, true, false, List, [], ◌∷◌, ◌++◌, arith, leb, if◌then◌else◌, length,
  ◌==◌, Text, text_eq, Bool-cases, beq_refl, inl, inr,
}
use zglab_rag.Prelude.Dict.{lookup-insert}
use zglab_rag.Limits.Window.Defs.{active, seconds}
use zglab_rag.Limits.Throttle.Defs.{
  user_key, LoginThrottle, Outcome, recorded, refusal, check_and_record, times, ip_key,
}

-- What a call appends to a list of times that it is for.
abbrev pub note : Bool → ℕ → List ℕ → List ℕ
note true now ts = ts ++ now ∷ []
note false now ts = ts

module _ (lower : Text → Text) (now : ℕ) (ip name : Text) (t : LoginThrottle) where
  abbrev pub ip_window : ℕ
  ip_window = seconds t.config.per_ip_window_seconds

  abbrev pub user_window : ℕ
  user_window = seconds t.config.per_username_window_seconds

  abbrev pub ip_recent : List ℕ
  ip_recent = active now ip_window (times (ip_key ip) t)

  abbrev pub user_recent : List ℕ
  user_recent = active now user_window (times (user_key (lower name)) t)

  -- Both dimensions have room.
  abbrev pub room : Bool
  room =
      if leb t.config.per_username_attempts (length user_recent)
      then false
      else if leb t.config.per_ip_attempts (length ip_recent)
      then false
      else true

  pub times_of_ip-check :
      (a : Text)
      → times (ip_key a) (check_and_record lower now ip name t).1
        ≡ (if ip == a then note room now ip_recent else times (ip_key a) t)
  unfolding check_and_record
  times_of_ip-check a =
      elim (Bool-cases (leb t.config.per_username_attempts (length user_recent))) [
        | inl p ↦ simp (lookup-insert, beq_refl, p) (ground arith)
        | inr p ↦ elim (Bool-cases (leb t.config.per_ip_attempts (length ip_recent))) [
          | inl q ↦ simp (lookup-insert, beq_refl, p, q) (ground arith)
          | inr q ↦ simp (lookup-insert, beq_refl, p, q) (ground arith)
        ]
      ]

  pub times_of_user-check :
      (a : Text)
      → times (user_key a) (check_and_record lower now ip name t).1
        ≡ (if lower name == a then note room now user_recent else times (user_key a) t)
  unfolding check_and_record
  times_of_user-check a =
      elim (Bool-cases (leb t.config.per_username_attempts (length user_recent))) [
        | inl p ↦ simp (lookup-insert, beq_refl, p) (ground arith)
        | inr p ↦ elim (Bool-cases (leb t.config.per_ip_attempts (length ip_recent))) [
          | inl q ↦ simp (lookup-insert, beq_refl, p, q) (ground arith)
          | inr q ↦ simp (lookup-insert, beq_refl, p, q) (ground arith)
        ]
      ]

  pub config-check : (check_and_record lower now ip name t).1.config ≡ t.config
  unfolding check_and_record
  config-check = elim (Bool-cases (leb t.config.per_username_attempts (length user_recent))) [
    | inl p ↦ simp (lookup-insert, beq_refl, p)
    | inr p ↦ elim (Bool-cases (leb t.config.per_ip_attempts (length ip_recent))) [
      | inl q ↦ simp (lookup-insert, beq_refl, p, q)
      | inr q ↦ simp (lookup-insert, beq_refl, p, q)
    ]
  ]

abbrev pub let_through : Outcome → Bool
let_through recorded = true
let_through _ = false

not_let_through : (now w : ℕ) (ts : List ℕ) → let_through (refusal now w ts) ≡ false
unfolding refusal
not_let_through now w [] = refl
not_let_through now w (t ∷ ts) = refl

pub let_through-check :
    (lower : Text → Text) (now : ℕ) (ip name : Text) (t : LoginThrottle)
    → let_through (check_and_record lower now ip name t).0 ≡ room lower now ip name t
unfolding check_and_record
let_through-check lower now ip name t =
    elim (Bool-cases
      (leb t.config.per_username_attempts (length (user_recent lower now ip name t)))) [
        | inl p ↦ simp (lookup-insert, beq_refl, p, not_let_through)
        | inr p ↦
            elim (Bool-cases
              (leb t.config.per_ip_attempts (length (ip_recent lower now ip name t)))) [
                | inl q ↦ simp (lookup-insert, beq_refl, p, q, not_let_through)
                | inr q ↦ simp (lookup-insert, beq_refl, p, q)
              ]
      ]

-- A call lets through only what both dimensions have room for.
pub room_lt :
    (lower : Text → Text) (now : ℕ) (ip name : Text) (t : LoginThrottle)
    → room lower now ip name t ≡ true
    → (length (ip_recent lower now ip name t) < t.config.per_ip_attempts)
      × (length (user_recent lower now ip name t) < t.config.per_username_attempts)
room_lt lower now ip name t h = ground arith
