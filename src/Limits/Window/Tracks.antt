-- ===== src/Limits/Window/Tracks.antt =====
-- The invariant of a pruned list of times: it stands for all the requests that were let through.
use zglab_rag.Prelude.{ℕ, ◌≤◌, ◌<◌, ◌≡◌, refl, ◌∙◌, sym, ap, List, [], ◌∷◌, ◌++◌, arith, length}
use zglab_rag.Limits.Window.Defs.{
  active, active-active, active-append, count_window, count_window-append, count_window-le-active,
}

-- `stored` is the list kept for a key, `passed` every request of the key that was let through,
-- `last` the time of the latest check; `n` requests may pass in a window of width `w`.
pub record Tracks (n w last : ℕ) (stored passed : List ℕ) : Type 0 where
  pub kept : (later : ℕ) → last ≤ later → active later w stored ≡ active later w passed
  pub bound : (at : ℕ) → count_window at w passed ≤ n

module _ {n w last : ℕ} {stored passed : List ℕ} (t : Tracks n w last stored passed) where
  module _ {now : ℕ} (h : last ≤ now) where
    pub Tracks-wait : Tracks n w now stored passed
    Tracks-wait = record { kept = λ later p. t.kept later (omega arith); bound = t.bound }

    kept_prune :
        (later : ℕ) → now ≤ later → active later w (active now w stored) ≡ active later w passed
    kept_prune later p = active-active now later w stored p ∙ t.kept later (omega arith)

    pub Tracks-prune : Tracks n w now (active now w stored) passed
    Tracks-prune = record { kept = kept_prune; bound = t.bound }

    bound_admit :
        length (active now w stored) < n → (at : ℕ) → count_window at w (passed ++ now ∷ []) ≤ n
    bound_admit room at = ground (
      arith,
      count_window-append at w passed (now ∷ []),
      t.bound at,
      count_window-le-active now at w passed,
      ap length (t.kept now h),
    )

    pub Tracks-admit :
        length (active now w stored) < n
        → Tracks n w now (active now w stored ++ now ∷ []) (passed ++ now ∷ [])
    Tracks-admit room = record {
      kept = λ later p.
          active-append later w (active now w stored) (now ∷ [])
          ∙ ap (λ l. l ++ active later w (now ∷ [])) (kept_prune later p)
          ∙ sym (active-append later w passed (now ∷ []));
      bound = bound_admit room;
    }

pub Tracks-start : (n w : ℕ) → Tracks n w 0 [] []
Tracks-start n w = record { kept = λ later p. refl; bound = λ at. omega arith }
