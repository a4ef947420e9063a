-- ===== src/Agent/Executor/Order.antt =====
-- Every run of a valid plan ends, and observes its steps in their order.
use zglab_rag.Prelude.{
  ℕ, ◌+◌, ◌-◌, ◌≡◌, refl, sym, ap, ◌∙◌, Bool, true, false, ◌&&◌, Option, none, some, List, [], ◌∷◌,
  ◌++◌, map, Text, ◌==◌, text_eq, length, all, contains, arith, and_true, append_nil, append_assoc,
  map-append, Bool-cases, Option-cases, inl, inr, beq_refl, beq_sym, leb,
}
use zglab_rag.Prelude.Dict.{Dict, lookup, insert, lookup-insert}
use zglab_rag.Agent.Plan.{
  PlanStep, AgentPlan, ready, is_valid_plan, is_valid_step, within_bounds, dependencies_known,
}
use zglab_rag.Agent.Executor.{
  AgentObservation, AgentExecution, ExecutionStatus, ExecutionTrace, completed, deadline_exceeded,
  World, is_some, any_failed, is_blocked, StepResult, key_error, timed_out, observed,
  unless_blocked, execute_step, step_result, stop, deadline_passed, traced, of_step, after_step,
  loop, execute,
}

abbrev pub is_completed : ExecutionStatus → Bool
is_completed completed = true
is_completed _ = false

-- A run that returns a result: it has observed the first steps, in their order, and if it is
-- complete then all of them.
pub record Ran {R : Type 0} (steps : List PlanStep) (before : List (Option Text))
    (o : Option (AgentExecution R)) : Type 0 where
  pub result : AgentExecution R
  pub returned : o ≡ some result
  pub done : List PlanStep
  pub rest : List PlanStep
  pub split : steps ≡ done ++ rest
  pub in_order : map (λ x. x.step_id) result.observations ≡ before ++ map (λ s. some s.step_id) done
  pub complete : is_completed result.status ≡ true → rest ≡ []

abbrev is_known : {R : Type 0} → Dict Text (AgentObservation R) → Text → Bool
is_known by_step d = is_some (lookup d by_step)

valid_dependencies : (p : AgentPlan) → is_valid_plan p ≡ true → dependencies_known [] p.steps ≡ true
unfolding is_valid_plan
valid_dependencies p h =
    (and_true (all is_valid_step p.steps && within_bounds p.steps) (dependencies_known [] p.steps)
      h).1

module _ {R : Type 0} where
  is_known-insert :
      (id d : Text) (o : AgentObservation R) (known : List Text)
      (by_step : Dict Text (AgentObservation R))
      → ((k : Text) → contains k known ≡ true → is_known by_step k ≡ true)
      → contains d (id ∷ known) ≡ true
      → is_known (insert id o by_step) d ≡ true
  is_known-insert id d o known by_step old h = elim (Bool-cases (id == d)) [
    | inl e ↦ rw (lookup-insert, e) refl
    | inr e ↦
        rw (lookup-insert, e)
          (old d (elim (Bool-cases (d == id)) [
            | inl e' ↦ cc (beq_sym d id e', e)
            | inr e' ↦ ground (arith, e', h)
          ]))
  ]

  any_failed_some :
      (o : Option (AgentObservation R)) (b : Option Bool)
      → is_some o ≡ true
      → is_some b ≡ true
      → is_some (any_failed o b) ≡ true
  any_failed_some (some o) b h k = ground arith
  any_failed_some none b h k = cc

  is_blocked_known :
      (known ds : List Text) (by_step : Dict Text (AgentObservation R))
      → ((k : Text) → contains k known ≡ true → is_known by_step k ≡ true)
      → all (λ d. contains d known) ds ≡ true
      → is_some (is_blocked by_step ds) ≡ true
  unfolding is_blocked
  is_blocked_known known [] by_step old h = refl
  is_blocked_known known (d ∷ ds) by_step old h =
      let (one, others) = and_true (contains d known) (all (λ d. contains d known) ds) h in
      any_failed_some (lookup d by_step) (is_blocked by_step ds) (old d one)
        (is_blocked_known known ds by_step old others)

  -- A step result that is no `KeyError`.
  abbrev ends : StepResult R → Bool
  ends key_error = false
  ends _ = true

  module _ (w : World R) (deadline : ℕ) (plan_id : Text) where
    unless_blocked-ends :
        (b : Option Bool) (n : ℕ) (s : PlanStep) (count : ℕ)
        → is_some b ≡ true
        → ends (unless_blocked w deadline plan_id b n s count) ≡ true
    unless_blocked-ends none n s count h = h
    unless_blocked-ends (some true) n s count h = refl
    unless_blocked-ends (some false) n s count h =
        elim (Option-cases (execute_step w n s (deadline - w.elapsed n))) [
          | inl e ↦ rw e refl
          | inr (o, e) ↦ rw e refl
        ]

    step_result-ends :
        (known : List Text) (n : ℕ) (s : PlanStep) (count : ℕ)
        (by_step : Dict Text (AgentObservation R))
        → ((k : Text) → contains k known ≡ true → is_known by_step k ≡ true)
        → all (λ d. contains d known) s.depends_on ≡ true
        → ends (step_result w deadline plan_id n s count by_step) ≡ true
    unfolding step_result
    step_result-ends known n s count by_step old h =
        elim (Bool-cases (leb deadline (w.elapsed n))) [
          | inl e ↦ rw e refl
          | inr e ↦ rw e (
              unless_blocked-ends (is_blocked by_step s.depends_on) n s count
                (is_blocked_known known s.depends_on by_step old h))
        ]

    stopped :
        (steps : List PlanStep) (os : List (AgentObservation R)) (ts : List ExecutionTrace)
        → Ran steps (map (λ x. x.step_id) os) (stop deadline_exceeded os ts (some deadline_passed))
    stopped steps os ts = record {
      result = record {
        status = deadline_exceeded;
        observations = os;
        trace = ts;
        error_code = some deadline_passed;
      };
      returned = refl;
      done = [];
      rest = steps;
      split = refl;
      in_order = sym (append_nil (map (λ x. x.step_id) os));
      complete = λ h. cc;
    }

    -- A run of the steps after one that has been observed is a run from that one.
    with_first :
        (s : PlanStep) (o : AgentObservation R) (rest : List PlanStep)
        (os : List (AgentObservation R)) (out : Option (AgentExecution R))
        → Ran rest (map (λ x. x.step_id) (os ++ of_step w deadline plan_id s o ∷ [])) out
        → Ran (s ∷ rest) (map (λ x. x.step_id) os) out
    with_first s o rest os out r = record {
      result = r.result;
      returned = r.returned;
      done = s ∷ r.done;
      rest = r.rest;
      split = ap (λ t. s ∷ t) r.split;
      in_order =
          r.in_order
          ∙ ap (λ t. t ++ map (λ x. some x.step_id) r.done)
              (map-append (λ x. x.step_id) os (of_step w deadline plan_id s o ∷ []))
          ∙ append_assoc (map (λ x. x.step_id) os) (some s.step_id ∷ []) _;
      complete = r.complete;
    }

    after_step-Ran :
        (s : PlanStep) (rest : List PlanStep) (os : List (AgentObservation R))
        (ts : List ExecutionTrace) (next : AgentObservation R → Option (AgentExecution R))
        (r : StepResult R)
        → ends r ≡ true
        → ((o : AgentObservation R)
            → Ran rest (map (λ x. x.step_id) (os ++ of_step w deadline plan_id s o ∷ [])) (next o))
        → Ran (s ∷ rest) (map (λ x. x.step_id) os) (after_step w deadline plan_id os ts r next)
    after_step-Ran s rest os ts next key_error h k = cc
    after_step-Ran s rest os ts next timed_out h k = stopped (s ∷ rest) os ts
    after_step-Ran s rest os ts next (observed o) h k = with_first s o rest os (next o) (k o)

    loop-Ran :
        (known : List Text) (n : ℕ) (steps : List PlanStep) (os : List (AgentObservation R))
        (ts : List ExecutionTrace) (by_step : Dict Text (AgentObservation R))
        → ((k : Text) → contains k known ≡ true → is_known by_step k ≡ true)
        → dependencies_known known steps ≡ true
        → Ran steps (map (λ x. x.step_id) os) (loop w deadline plan_id n steps os ts by_step)
    unfolding loop
    loop-Ran known n [] os ts by_step old h = record {
      result = record { status = completed; observations = os; trace = ts; error_code = none };
      returned = refl;
      done = [];
      rest = [];
      split = refl;
      in_order = sym (append_nil (map (λ x. x.step_id) os));
      complete = λ _. refl;
    }
    loop-Ran known n (s ∷ rest) os ts by_step old h =
        let (one, others) =
          and_true (all (λ d. contains d known) s.depends_on)
            (dependencies_known (s.step_id ∷ known) rest) h in
        after_step-Ran s rest os ts _ (step_result w deadline plan_id n s (length os) by_step)
          (step_result-ends known n s (length os) by_step old one)
          (λ o.
            loop-Ran (s.step_id ∷ known) (n + 1) rest (os ++ of_step w deadline plan_id s o ∷ [])
              (ts ++ traced w deadline plan_id n s o ∷ [])
              (insert s.step_id (of_step w deadline plan_id s o) by_step)
              (λ k. is_known-insert s.step_id k (of_step w deadline plan_id s o) known by_step old)
              others)

  -- A valid plan that is ready, executed for its request: the execution returns, whatever the
  -- capabilities answer and however long they take, with no missing dependency; it has observed the
  -- first steps of the plan, each once and in their order, and all of them if it is complete.
  pub execute-Ran :
      (w : World R) (deadline : ℕ) (p : AgentPlan)
      → is_valid_plan p ≡ true
      → p.status ≡ ready
      → Ran p.steps [] (execute w deadline p.request_id p)
  unfolding execute
  execute-Ran w deadline p valid is_ready =
      rw (valid, beq_refl p.request_id, is_ready)
        (loop-Ran w deadline p.request_id [] 0 p.steps [] [] [] (λ k h. cc)
          (valid_dependencies p valid))
