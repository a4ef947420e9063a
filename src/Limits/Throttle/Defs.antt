-- ===== src/Limits/Throttle/Defs.antt =====
-- `LoginThrottle` of src/zglab_rag/auth/throttle.py. `lower` is Python's `str.lower`.
use zglab_rag.Prelude.{
  ℕ, Option, none, some, List, [], ◌∷◌, ◌++◌, leb, if◌then◌else◌, length, Text, text_eq, codes,
}
use zglab_rag.Prelude.Dict.{Dict, lookup, insert}
use zglab_rag.Limits.Window.Defs.{active, retry_after, seconds}

pub record LoginThrottleConfig : Type 0 where
  pub per_ip_attempts : ℕ
  pub per_ip_window_seconds : ℕ
  pub per_username_attempts : ℕ
  pub per_username_window_seconds : ℕ

abbrev pub default_config : LoginThrottleConfig
default_config = record {
  per_ip_attempts = 10;
  per_ip_window_seconds = 600;
  per_username_attempts = 5;
  per_username_window_seconds = 900;
}

pub record LoginThrottle : Type 0 where
  pub config : LoginThrottleConfig
  pub attempts : Dict Text (List ℕ)

-- `value_error` is the `ValueError` of `min` on an empty list.
pub data Outcome : Type 0 where
  recorded : Outcome
  login_throttled : ℕ → Outcome
  value_error : Outcome

-- `_attempts` is a `defaultdict(list)`.
abbrev pub or_empty : Option (List ℕ) → List ℕ
or_empty none = []
or_empty (some ts) = ts

abbrev pub times : Text → LoginThrottle → List ℕ
times key t = or_empty (lookup key t.attempts)

-- `f"ip:{ip}"`
abbrev pub ip_key : Text → Text
ip_key ip = codes "ip:" ++ ip

-- `f"user:{username.lower()}"`, of the lowered name
abbrev pub user_key : Text → Text
user_key name = codes "user:" ++ name

-- The stores of `_prune` and of the two appends.
abbrev pub store : Text → List ℕ → LoginThrottle → LoginThrottle
store key ts t = record t { attempts = insert key ts t.attempts }

abbrev pub prune : Text → ℕ → ℕ → LoginThrottle → LoginThrottle
prune key now window t = store key (active now window (times key t)) t

-- `_retry_after` and the error that carries it
unfoldable pub refusal : ℕ → ℕ → List ℕ → Outcome
refusal now window [] = value_error
refusal now window (t ∷ ts) = login_throttled (retry_after now window t ts)

unfoldable pub check_and_record :
    (Text → Text) → ℕ → Text → Text → LoginThrottle → Outcome × LoginThrottle
unfolding refusal
check_and_record lower now ip username t =
    let ip_window = seconds t.config.per_ip_window_seconds in
    let user_window = seconds t.config.per_username_window_seconds in
    let u = user_key (lower username) in
    let t' = prune u now user_window (prune (ip_key ip) now ip_window t) in
    let ip_times = times (ip_key ip) t' in
    let user_times = times u t' in
    if leb t.config.per_username_attempts (length user_times)
    then (refusal now user_window user_times, t')
    else if leb t.config.per_ip_attempts (length ip_times)
    then (refusal now ip_window ip_times, t')
    else (recorded, store u (user_times ++ now ∷ []) (store (ip_key ip) (ip_times ++ now ∷ []) t'))

unfoldable pub reset : LoginThrottle → LoginThrottle
reset t = record t { attempts = [] }
