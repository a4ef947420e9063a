-- ===== src/Agent/Executor/Blocking.antt =====
-- Steps whose dependencies did not succeed.
use zglab_rag.Prelude.{
  ℕ, ◌+◌, ◌≡◌, refl, ap, ◌∙◌, Bool, true, false, Option, none, some, List, [], ◌∷◌, ◌++◌, Text,
  codes, ◌==◌, text_eq, text_beq_iff, contains, leb, arith, Bool-cases, inl, inr,
}
use zglab_rag.Prelude.Dict.{Dict, lookup}
use zglab_rag.Agent.Plan.{PlanStep}
use zglab_rag.Agent.Executor.{
  AgentObservation, World, is_some, is_success, any_failed, is_blocked, observed,
  blocked_observation, step_result,
}

module _ {R : Type 0} (by_step : Dict Text (AgentObservation R)) where
  any_failed-true :
      (o : Option (AgentObservation R)) (rest : Option Bool)
      → is_some (any_failed o rest) ≡ true
      → (is_some rest ≡ true → rest ≡ some true)
      → any_failed o rest ≡ some true
  any_failed-true none rest h k = cc
  any_failed-true (some o) rest h k = elim (Bool-cases (is_success o.status)) [
    | inl e ↦ rw e (k (ap is_some (rw e refl) ∙ h))
    | inr e ↦ rw e refl
  ]

  -- One dependency that did not succeed blocks the step, unless one before it is missing.
  is_blocked-contains :
      (d : Text) (o : AgentObservation R) (ds : List Text)
      → contains d ds ≡ true
      → lookup d by_step ≡ some o
      → is_success o.status ≡ false
      → is_some (is_blocked by_step ds) ≡ true
      → is_blocked by_step ds ≡ some true
  unfolding is_blocked
  is_blocked-contains d o [] c l f h = cc
  is_blocked-contains d o (x ∷ ds) c l f h = elim (Bool-cases (d == x)) [
    | inl e ↦ rw (← (text_beq_iff d x).0 e, l) (rw f refl)
    | inr e ↦
        any_failed-true (lookup x by_step) (is_blocked by_step ds) h
          (is_blocked-contains d o ds (ground (arith, e, c)) l f)
  ]

-- A step that is in time, and has a dependency that was observed not to succeed, is observed as
-- blocked, whatever the capabilities would answer (the observations of its dependencies being
-- there).
pub step_result-blocked :
    {R : Type 0} (w : World R) (deadline : ℕ) (plan_id : Text) (n count : ℕ) (s : PlanStep)
    (by_step : Dict Text (AgentObservation R)) (d : Text) (o : AgentObservation R)
    → leb deadline (w.elapsed n) ≡ false
    → is_some (is_blocked by_step s.depends_on) ≡ true
    → contains d s.depends_on ≡ true
    → lookup d by_step ≡ some o
    → is_success o.status ≡ false
    → step_result w deadline plan_id n s count by_step
      ≡ observed (blocked_observation s (codes "O" ++ w.str_int (count + 1)))
unfolding step_result
step_result-blocked w deadline plan_id n count s by_step d o in_time there c l f =
    rw (in_time, is_blocked-contains by_step d o s.depends_on c l f there) refl
