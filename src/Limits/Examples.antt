-- ===== src/Limits/Examples.antt =====
-- The limits at concrete configurations.
use zglab_rag.Prelude.{
  ℕ, ◌+◌, ◌≤◌, ◌≡◌, refl, String, none, some, List, [], ◌∷◌, arith, Text, codes,
}
use zglab_rag.Prelude.Dict.{lookup, insert}
use zglab_rag.Prelude.Rows.{find, update}
use zglab_rag.Limits.Window.Defs.{active, retry_after, seconds, count_window}
use zglab_rag.Limits.RateLimit.Defs.{
  RateLimiter, admitted, rate_limit_exceeded, check, remaining, reset, fresh,
}
use zglab_rag.Limits.RateLimit.Admission.{attempt, attempts, attempts-le-max_requests}
use zglab_rag.Limits.RateLimit.Retry.{check-retry_after, remaining-check, remaining-reset}
use zglab_rag.Limits.Quota.Defs.{
  QuotaConfig, minute_count, day_count, check_and_record as count_request, record_usage, refund,
}
use zglab_rag.Limits.Quota.Runs.{UsageOperation, request, refunded, run, perform, counts-le-limits}
use zglab_rag.Limits.Throttle.Defs.{default_config, check_and_record}
use zglab_rag.Limits.Throttle.Admission.{
  Attempt, unused, attempt as login_attempt, attempts as login_attempts, attempts-le-limits,
}

abbrev calls : List (String × ℕ)
calls = ("a", 1000) ∷ ("a", 1500) ∷ ("b", 1600) ∷ ("a", 1700) ∷ ("a", 62000) ∷ []

-- Two requests a minute: the third of `a` is refused, the one after a minute passes.
calls_passed :
    (attempts "a" calls (record { limiter = fresh 2 60; passed = [] })).passed
    ≡ 1000 ∷ 1500 ∷ 62000 ∷ []
unfolding attempts attempt check lookup insert active
calls_passed = refl

attempts-le-max_requests_example :
    count_window 62000
      (seconds 60)
      (attempts "a" calls (record { limiter = fresh 2 60; passed = [] })).passed
    ≤ 2
attempts-le-max_requests_example = attempts-le-max_requests "a" 2 60 62000 calls (omega arith)

abbrev busy : RateLimiter
busy = record { max_requests = 2; window_seconds = 60; requests = ("a", 1000 ∷ 1500 ∷ []) ∷ [] }

busy_refuses : (check 2000 "a" busy).0 ≡ rate_limit_exceeded 59000
unfolding check lookup active retry_after
busy_refuses = refl

check-retry_after_example : (check 61000 "a" (check 2000 "a" busy).1).0 ≡ admitted
unfolding lookup
check-retry_after_example =
    check-retry_after 2000 "a" busy 59000 61000 (omega arith) busy_refuses (omega arith)

busy_admits : (check 2000 "b" busy).0 ≡ admitted
unfolding check lookup active
busy_admits = refl

remaining-check_example : remaining 2000 "b" (check 2000 "b" busy).1 + 1 ≡ remaining 2000 "b" busy
remaining-check_example = remaining-check 2000 "b" "b" busy (omega arith) busy_admits

remaining-reset_example :
    (remaining 2000 "b" (reset (some "a") busy) ≡ remaining 2000 "b" busy)
    × (remaining 2000 "b" (reset none busy) ≡ 2)
remaining-reset_example = remaining-reset 2000 "a" "b" busy

abbrev lower : Text → Text
lower s = s

abbrev logins : List Attempt
logins =
    record { ip = codes "10.0.0.1"; username = codes "ada"; now = 5000 }
    ∷ record { ip = codes "10.0.0.2"; username = codes "ada"; now = 6000 }
    ∷ []

attempts-le-limits_example :
    (count_window 6000
        (seconds 600)
        (login_attempts lower
          (codes "10.0.0.1")
          (codes "ada")
          logins
          (unused default_config)).from_ip
      ≤ 10)
    × (count_window 6000
          (seconds 900)
          (login_attempts lower
            (codes "10.0.0.1")
            (codes "ada")
            logins
            (unused default_config)).for_user
        ≤ 5)
attempts-le-limits_example =
    attempts-le-limits lower (codes "10.0.0.1") (codes "ada") default_config 6000 logins
      (omega arith)

-- Both attempts are for the user, and one is from the address.
logins_passed :
    (login_attempts lower (codes "10.0.0.1") (codes "ada") logins (unused default_config)).for_user
    ≡ 5000 ∷ 6000 ∷ []
unfolding login_attempts login_attempt check_and_record lookup insert active
logins_passed = refl

abbrev one_a_minute : QuotaConfig
one_a_minute = record { requests_per_minute = 1; requests_per_day = 2 }

abbrev usage : List UsageOperation
usage = request 7 60000000 ∷ request 7 60000001 ∷ request 7 120000000 ∷ refunded 7 120000000 ∷ []

counts-le-limits_example :
    (minute_count 7 0 1 (run one_a_minute usage []) ≤ 1)
    × (day_count 7 0 (run one_a_minute usage []) ≤ 2)
counts-le-limits_example = counts-le-limits one_a_minute usage 7 0 1

-- The second request is refused, and the third is given back.
day_counted : day_count 7 0 (run one_a_minute usage []) ≡ 1
unfolding run perform count_request record_usage minute_count day_count find update refund
day_counted = refl
