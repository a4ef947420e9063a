-- ===== src/Limits/Window/Defs.antt =====
-- The sliding window of src/zglab_rag/api/rate_limit.py and src/zglab_rag/auth/throttle.py.
-- Times are whole milliseconds.
use zglab_rag.Prelude.{
  ℕ, ◌+◌, ◌-◌, ◌*◌, ◌≤◌, ◌<◌, max, min, ◌≡◌, refl, List, [], ◌∷◌, ◌++◌, arith, ltb, leb,
  if◌then◌else◌, length, keep, keep-append,
}

-- A configured number of seconds, in milliseconds.
abbrev pub seconds : ℕ → ℕ
seconds n = n * 1000

-- `[t for t in times if t > now - window]`
unfoldable pub active : ℕ → ℕ → List ℕ → List ℕ
active now window times = keep (λ t. ltb now (t + window)) times

-- `min(x :: xs)`
unfoldable pub oldest : ℕ → List ℕ → ℕ
oldest x [] = x
oldest x (y ∷ ys) = min x (oldest y ys)

-- `max(0.1, min(x :: xs) + window - now)`; every time in the list is active.
unfoldable pub retry_after : ℕ → ℕ → ℕ → List ℕ → ℕ
unfolding oldest
retry_after now window x xs = max 100 (oldest x xs + window - now)

-- What has left the window stays out of it.
pub active-active :
    (now later w : ℕ) (ts : List ℕ)
    → now ≤ later
    → active later w (active now w ts) ≡ active later w ts
unfolding active
active-active now later w [] h = refl
active-active now later w (t ∷ ts) h = ground (arith, active-active now later w ts h)

pub active-append :
    (now w : ℕ) (xs ys : List ℕ) → active now w (xs ++ ys) ≡ active now w xs ++ active now w ys
unfolding active
active-append now w xs ys = keep-append (λ t. ltb now (t + w)) xs ys

pub length-active-le : (now w : ℕ) (ts : List ℕ) → length (active now w ts) ≤ length ts
unfolding active
length-active-le now w [] = omega arith
length-active-le now w (t ∷ ts) = ground (arith, length-active-le now w ts)

-- Later, the window holds no more of the same times.
pub length-active_mono :
    (now later w : ℕ) (ts : List ℕ)
    → now ≤ later
    → length (active later w ts) ≤ length (active now w ts)
unfolding active
length-active_mono now later w [] h = omega arith
length-active_mono now later w (t ∷ ts) h = ground (arith, length-active_mono now later w ts h)

-- Once the oldest time has left the window, it holds fewer.
pub length-active-lt :
    (now w x : ℕ) (xs : List ℕ)
    → oldest x xs + w ≤ now
    → length (active now w (x ∷ xs)) < length (x ∷ xs)
unfolding active oldest
length-active-lt now w x [] h = ground arith
length-active-lt now w x (y ∷ ys) h =
    ground (arith, length-active-lt now w y ys, length-active-le now w (y ∷ ys))

-- The times that were at most `at` and less than a window before it.
abbrev pub count_window : ℕ → ℕ → List ℕ → ℕ
count_window at w [] = 0
count_window at w (t ∷ ts) =
    (if leb t at then (if ltb at (t + w) then 1 else 0) else 0) + count_window at w ts

pub count_window-append :
    (at w : ℕ) (xs ys : List ℕ)
    → count_window at w (xs ++ ys) ≡ count_window at w xs + count_window at w ys
count_window-append at w [] ys = omega arith
count_window-append at w (x ∷ xs) ys = omega (arith, count_window-append at w xs ys)

-- At or after `now`, a window holds at most what is active at `now`.
pub count_window-le-active :
    (now at w : ℕ) (ts : List ℕ) → now ≤ at → count_window at w ts ≤ length (active now w ts)
unfolding active
count_window-le-active now at w [] h = omega arith
count_window-le-active now at w (t ∷ ts) h = ground (arith, count_window-le-active now at w ts h)
