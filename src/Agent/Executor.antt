-- ===== src/Agent/Executor.antt =====
-- `BoundedAgentExecutor` of src/zglab_rag/agent/execution.py. The adapter, which the executor is
-- given, and the clock are parameters.
pub mod Order
pub mod Blocking
use zglab_rag.Prelude.{
  ℕ, ◌+◌, ◌-◌, Bool, true, false, ◌&&◌, ◌||◌, not, Option, none, some, List, [], ◌∷◌, ◌++◌, Text,
  codes, ◌==◌, text_eq, leb, if◌then◌else◌, length,
}
use zglab_rag.Prelude.Dict.{Dict, lookup, insert}
use zglab_rag.Agent.Plan.{
  PlanStepType, personal, web, tool, PlanStatus, ready, needs_input, PlanStep, AgentPlan,
  is_allowed, is_valid_plan,
}

pub data ObservationOrigin : Type 0 where
  personal_origin web_origin tool_origin : ObservationOrigin

pub data ObservationStatus : Type 0 where
  success insufficient_evidence failed disabled blocked : ObservationStatus

-- What an observation of one of the three kinds carries; `R` is a capability's result.
pub data Payload (R : Type 0) : Type 0 where
  bare : Payload R
  knowledge : Option R → Payload R
  tool_result : Text → Option R → Option Text → Option Text → Payload R

pub record AgentObservation (R : Type 0) : Type 0 where
  pub observation_id : Text
  pub origin : ObservationOrigin
  pub status : ObservationStatus
  pub summary : Option Text
  pub step_id : Option Text
  pub payload : Payload R

pub data ExecutionStatus : Type 0 where
  completed input_needed invalid_plan deadline_exceeded : ExecutionStatus

pub data AgentErrorCode : Type 0 where
  capability_failed capability_disabled tool_failed deadline_passed : AgentErrorCode
  invalid_observation : AgentErrorCode

pub record ExecutionTrace : Type 0 where
  pub plan_id : Text
  pub traced_step : Text
  pub capability : PlanStepType
  pub traced_status : ObservationStatus
  pub duration_ms : ℕ
  pub traced_observation : Text
  pub traced_tool : Option Text

pub record AgentExecution (R : Type 0) : Type 0 where
  pub status : ExecutionStatus
  pub observations : List (AgentObservation R)
  pub trace : List ExecutionTrace
  pub error_code : Option AgentErrorCode

-- The adapter's answer to a call of a capability within a time, `none` where the time runs out, and
-- the clock: the time since the start when a step begins, and what a step takes, in milliseconds.
-- Both are given the number of the step in the plan. `str_int` is Python's `str`.
pub record World (R : Type 0) : Type 0 where
  pub invoke : ℕ → PlanStep → ℕ → Option (AgentObservation R)
  pub elapsed : ℕ → ℕ
  pub duration : ℕ → ℕ
  pub str_int : ℕ → Text

abbrev pub origin_of : PlanStepType → ObservationOrigin
origin_of personal = personal_origin
origin_of web = web_origin
origin_of tool = tool_origin

abbrev pub text_or_empty : Option Text → Text
text_or_empty none = []
text_or_empty (some t) = t

abbrev pub is_success : ObservationStatus → Bool
is_success success = true
is_success _ = false

abbrev pub is_some : {A : Type 0} → Option A → Bool
is_some none = false
is_some (some a) = true

module _ {R : Type 0} where
  -- `_blocked`
  unfoldable pub blocked_observation : PlanStep → Text → AgentObservation R
  blocked_observation s id = record {
    observation_id = id;
    origin = origin_of s.type;
    status = blocked;
    summary = some (codes "dependency did not succeed");
    step_id = some s.step_id;
    payload = elim s.type [
      | tool ↦ tool_result (text_or_empty s.tool_id) none none none
      | _ ↦ bare
    ];
  }

  abbrev pub input_required : PlanStep → AgentObservation R
  input_required s = record {
    observation_id = [];
    origin = tool_origin;
    status = failed;
    summary = some (codes "tool input is required");
    step_id = none;
    payload = tool_result (text_or_empty s.tool_id) none none none;
  }

  -- `_execute_step`: a tool is called only if it is allowed and has its input.
  unfoldable pub execute_step : World R → ℕ → PlanStep → ℕ → Option (AgentObservation R)
  execute_step w n s remaining = elim s.type [
    | tool ↦
        if is_allowed s.tool_id && is_some s.tool_input
        then w.invoke n s remaining
        else some (input_required s)
    | _ ↦ w.invoke n s remaining
  ]

  -- `any(by_step[d].status != SUCCESS for d in …)`, where `none` is a `KeyError`
  abbrev pub any_failed : Option (AgentObservation R) → Option Bool → Option Bool
  any_failed none rest = none
  any_failed (some o) rest = if is_success o.status then rest else some true

  unfoldable pub is_blocked : Dict Text (AgentObservation R) → List Text → Option Bool
  is_blocked by_step [] = some false
  is_blocked by_step (d ∷ ds) = any_failed (lookup d by_step) (is_blocked by_step ds)

  abbrev pub stop :
      ExecutionStatus
      → List (AgentObservation R)
      → List ExecutionTrace
      → Option AgentErrorCode
      → Option (AgentExecution R)
  stop status os ts error =
      some (record { status = status; observations = os; trace = ts; error_code = error })

-- How a step ends.
pub data StepResult (R : Type 0) : Type 0 where
  key_error timed_out : StepResult R
  observed : AgentObservation R → StepResult R

abbrev pub or_timed_out : {R : Type 0} → Option (AgentObservation R) → StepResult R
or_timed_out none = timed_out
or_timed_out (some o) = observed o

module _ {R : Type 0} (w : World R) (deadline : ℕ) (plan_id : Text) where
  -- The observation of a step that is not late, by whether it is blocked.
  abbrev pub unless_blocked : Option Bool → ℕ → PlanStep → ℕ → StepResult R
  unless_blocked none n s count = key_error
  unless_blocked (some true) n s count =
      observed (blocked_observation s (codes "O" ++ w.str_int (count + 1)))
  unless_blocked (some false) n s count = or_timed_out (execute_step w n s (deadline - w.elapsed n))

  unfoldable pub step_result : ℕ → PlanStep → ℕ → Dict Text (AgentObservation R) → StepResult R
  step_result n s count by_step =
      if leb deadline (w.elapsed n)
      then timed_out
      else unless_blocked (is_blocked by_step s.depends_on) n s count

  abbrev pub traced : ℕ → PlanStep → AgentObservation R → ExecutionTrace
  traced n s o = record {
    plan_id = plan_id;
    traced_step = s.step_id;
    capability = s.type;
    traced_status = o.status;
    duration_ms = w.duration n;
    traced_observation = o.observation_id;
    traced_tool = s.tool_id;
  }

  -- `replace(observation, step_id=step.step_id)`
  abbrev pub of_step : PlanStep → AgentObservation R → AgentObservation R
  of_step s o = record o { step_id = some s.step_id }

  -- The early returns of the loop, or the rest of the run.
  abbrev pub after_step :
      List (AgentObservation R)
      → List ExecutionTrace
      → StepResult R
      → (AgentObservation R → Option (AgentExecution R))
      → Option (AgentExecution R)
  after_step os ts key_error next = none
  after_step os ts timed_out next = stop deadline_exceeded os ts (some deadline_passed)
  after_step os ts (observed o) next = next o

  -- The loop of `execute`, from step number `n` on; `none` is a `KeyError`.
  unfoldable pub loop :
      ℕ
      → List PlanStep
      → List (AgentObservation R)
      → List ExecutionTrace
      → Dict Text (AgentObservation R)
      → Option (AgentExecution R)
  loop n [] os ts by_step = stop completed os ts none
  loop n (s ∷ rest) os ts by_step = after_step os ts (step_result n s (length os) by_step) (λ o.
      loop (n + 1) rest (os ++ of_step s o ∷ []) (ts ++ traced n s o ∷ [])
        (insert s.step_id (of_step s o) by_step))

abbrev pub by_status :
    {R : Type 0} → PlanStatus → Option (AgentExecution R) → Option (AgentExecution R)
by_status ready run = run
by_status needs_input run = stop input_needed [] [] none
by_status PlanStatus.failed run = stop invalid_plan [] [] (some invalid_observation)

-- `execute`, for a request of the given id
unfoldable pub execute : {R : Type 0} → World R → ℕ → Text → AgentPlan → Option (AgentExecution R)
execute w deadline request_id p =
    if is_valid_plan p && p.request_id == request_id
    then by_status p.status (loop w deadline p.request_id 0 p.steps [] [] [])
    else stop invalid_plan [] [] (some invalid_observation)
