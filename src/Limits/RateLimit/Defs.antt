-- ===== src/Limits/RateLimit/Defs.antt =====
-- `RateLimiter` of src/zglab_rag/api/rate_limit.py.
use zglab_rag.Prelude.{
  ℕ, ◌-◌, String, Option, none, some, List, [], ◌∷◌, ◌++◌, leb, if◌then◌else◌, string_eq, length,
}
use zglab_rag.Prelude.Dict.{Dict, lookup, insert, remove}
use zglab_rag.Limits.Window.Defs.{active, retry_after, seconds}

pub record RateLimiter : Type 0 where
  pub max_requests : ℕ
  pub window_seconds : ℕ
  pub requests : Dict String (List ℕ)

-- `_requests` is a `defaultdict(list)`.
abbrev pub or_empty : Option (List ℕ) → List ℕ
or_empty none = []
or_empty (some ts) = ts

abbrev pub timestamps : RateLimiter → String → List ℕ
timestamps r client = or_empty (lookup client r.requests)

abbrev pub window : RateLimiter → ℕ
window r = seconds r.window_seconds

-- How a check ends. `value_error` is the `ValueError` of `min` on an empty list.
pub data Outcome : Type 0 where
  admitted : Outcome
  rate_limit_exceeded : ℕ → Outcome
  value_error : Outcome

-- `retry_after = oldest + self.window_seconds - now`, for the error.
unfoldable pub refusal : ℕ → ℕ → List ℕ → Outcome
refusal now w [] = value_error
refusal now w (t ∷ ts) = rate_limit_exceeded (retry_after now w t ts)

-- The list that `check` prunes is the one in the table, so the request is recorded there.
unfoldable pub check : ℕ → String → RateLimiter → Outcome × RateLimiter
unfolding refusal
check now client r =
    let ts = active now (window r) (timestamps r client) in
    if leb r.max_requests (length ts)
    then (refusal now (window r) ts, record r { requests = insert client ts r.requests })
    else (admitted, record r { requests = insert client (ts ++ now ∷ []) r.requests })

unfoldable pub reset : Option String → RateLimiter → RateLimiter
reset none r = record r { requests = [] }
reset (some client) r = record r { requests = remove client r.requests }

-- `max(0, max_requests - len(active))`
unfoldable pub remaining : ℕ → String → RateLimiter → ℕ
remaining now client r = r.max_requests - length (active now (window r) (timestamps r client))

abbrev pub fresh : ℕ → ℕ → RateLimiter
fresh n w = record { max_requests = n; window_seconds = w; requests = [] }
