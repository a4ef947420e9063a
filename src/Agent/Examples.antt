-- ===== src/Agent/Examples.antt =====
-- The planner and the executor on concrete requests.
use zglab_rag.Prelude.{ℕ, ◌+◌, ◌≡◌, refl, true, none, some, [], ◌∷◌, codes, text_eq}
use zglab_rag.Prelude.Dict.{lookup}
use zglab_rag.Agent.Plan.{PlanStep, AgentPlan, personal, web, ready, is_valid_plan, is_valid_step}
use zglab_rag.Agent.Planner.{AgentRequest, Python, plan, single_step}
use zglab_rag.Agent.Planner.Bounds.{Planned, plan-Planned}
use zglab_rag.Agent.Executor.{
  AgentObservation, World, origin_of, insufficient_evidence, bare, observed, is_blocked,
  blocked_observation, step_result, execute,
}
use zglab_rag.Agent.Executor.Blocking.{step_result-blocked}
use zglab_rag.Agent.Executor.Order.{Ran, execute-Ran}

abbrev py : Python
py = record { strip = λ s. s; lower = λ s. s; search_label = λ labels s. none }

abbrev request : AgentRequest
request = record { request_id = codes "r1"; question = codes "format json:{}"; messages = none }

plan-Planned_example : Planned request (plan py request)
plan-Planned_example = plan-Planned py request

abbrev two_steps : AgentPlan
two_steps = record {
  request_id = codes "r1";
  status = ready;
  reason_code = codes "personal_current_comparison";
  steps =
      single_step personal (codes "personal facts")
      ∷ record (single_step web (codes "context")) {
        step_id = codes "S2";
        depends_on = codes "S1" ∷ [];
      }
      ∷ [];
}

-- Capabilities that find nothing, within time.
abbrev world : World ℕ
world = record {
  invoke = λ n s remaining. some (record {
    observation_id = codes "O1";
    origin = origin_of s.type;
    status = insufficient_evidence;
    summary = none;
    step_id = none;
    payload = bare;
  });
  elapsed = λ n. n + 10;
  duration = λ n. 5;
  str_int = λ n. (b'0' + n) ∷ [];
}

two_steps_valid : is_valid_plan two_steps ≡ true
unfolding is_valid_plan is_valid_step
two_steps_valid = refl

execute-Ran_example : Ran two_steps.steps [] (execute world 30000 (codes "r1") two_steps)
execute-Ran_example = execute-Ran world 30000 two_steps two_steps_valid refl

abbrev nothing_found : AgentObservation ℕ
nothing_found = record {
  observation_id = codes "O1";
  origin = origin_of personal;
  status = insufficient_evidence;
  summary = none;
  step_id = some (codes "S1");
  payload = bare;
}

abbrev dependent : PlanStep
dependent = record (single_step web (codes "context")) {
  step_id = codes "S2";
  depends_on = codes "S1" ∷ [];
}

step_result-blocked_example :
    step_result world 30000 (codes "r1") 1 dependent 1 ((codes "S1", nothing_found) ∷ [])
    ≡ observed (blocked_observation dependent (codes "O2"))
unfolding is_blocked lookup
step_result-blocked_example =
    step_result-blocked world 30000 (codes "r1") 1 1 dependent ((codes "S1", nothing_found) ∷ [])
      (codes "S1") nothing_found refl refl refl refl refl
