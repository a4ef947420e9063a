-- ===== src/Agent/Planner/Bounds.antt =====
-- What the planner returns, for any request.
use zglab_rag.Prelude.{
  ◌≡◌, refl, Bool, true, false, ◌&&◌, ◌||◌, not, Option, none, some, List, [], ◌∷◌, Text, codes,
  text_eq, if◌then◌else◌, all, contains, and_true,
}
use zglab_rag.Agent.Plan.{
  personal, web, tool, PlanStatus, ready, type_beq, is_absent, AgentPlan, PlanStep,
  mcp_tool_allowlist, is_valid_step, is_valid_plan, validated,
}
use zglab_rag.Agent.Planner.{
  AgentRequest, Python, contains_any, first_tool, tool_markers, self_markers, current_markers,
  occurs_in, single, tool_with, tool_plan, comparison, without_tool, with_tool, plan,
}

-- A tool step of a plan that is ready has its input.
abbrev pub has_input : PlanStatus → PlanStep → Bool
has_input ready s = not (type_beq s.type tool) || not (is_absent s.tool_input)
has_input _ s = true

-- A plan for the request, within the bounds of the validators; if it is ready, its tool steps have
-- their input.
pub record Planned (request : AgentRequest) (o : Option AgentPlan) : Type 0 where
  pub result : AgentPlan
  pub returned : o ≡ some result
  pub valid : is_valid_plan result ≡ true
  pub own : result.request_id ≡ request.request_id
  pub input : all (has_input result.status) result.steps ≡ true

module _ (py : Python) (request : AgentRequest) where
  planned :
      (p : AgentPlan)
      → is_valid_plan p ≡ true
      → p.request_id ≡ request.request_id
      → all (has_input p.status) p.steps ≡ true
      → Planned request (validated p)
  unfolding validated
  planned p valid own input = record {
    result = p;
    returned = rw valid refl;
    valid = valid;
    own = own;
    input = input;
  }

  single-Planned_personal : (reason : Text) → Planned request (single py request personal reason)
  unfolding single is_valid_plan is_valid_step
  single-Planned_personal reason = planned _ refl refl refl

  single-Planned_web : (reason : Text) → Planned request (single py request web reason)
  unfolding single is_valid_plan is_valid_step
  single-Planned_web reason = planned _ refl refl refl

  comparison-Planned : Planned request (comparison py request)
  unfolding comparison is_valid_plan is_valid_step
  comparison-Planned = planned _ refl refl refl

  tool_with-Planned :
      (tool_id : Text) (argument : Option Text)
      → contains tool_id mcp_tool_allowlist ≡ true
      → Planned request (tool_with py request tool_id argument)
  unfolding is_valid_plan is_valid_step
  tool_with-Planned tool_id none h = planned _ (rw h refl) refl refl
  tool_with-Planned tool_id (some argument) h = planned _ (rw h refl) refl refl

  picked :
      (allowed : List Text) (b : Bool) (t tool_id : Text) (o : Option Text)
      → contains t allowed ≡ true
      → (o ≡ some tool_id → contains tool_id allowed ≡ true)
      → (if b then some t else o) ≡ some tool_id
      → contains tool_id allowed ≡ true
  picked allowed true t tool_id o h k e = cc
  picked allowed false t tool_id o h k e = k e

  -- A tool that the markers select is one of the table.
  listed :
      (allowed : List Text) (question tool_id : Text) (tools : List (Text × List Text))
      → all (λ p. contains p.0 allowed) tools ≡ true
      → first_tool py question tools ≡ some tool_id
      → contains tool_id allowed ≡ true
  listed allowed question tool_id [] h e = cc
  listed allowed question tool_id ((t, markers) ∷ rest) h e =
      let (one, others) = and_true (contains t allowed) (all (λ p. contains p.0 allowed) rest) h in
      picked allowed (contains_any py question markers) t tool_id (first_tool py question rest) one
        (listed allowed question tool_id rest others) e

  by_markers :
      (mine current compares : Bool)
      → Planned request (
          if mine && (current && compares)
          then comparison py request
          else if mine
          then single py request personal (codes "personal_integrity")
          else if current
          then single py request web (codes "current_information")
          else single py request personal (codes "default_personal"))
  by_markers true true true = comparison-Planned
  by_markers true true false = single-Planned_personal _
  by_markers true false compares = single-Planned_personal _
  by_markers false true compares = single-Planned_web _
  by_markers false false compares = single-Planned_personal _

  without_tool-Planned : (question : Text) → Planned request (without_tool py request question)
  without_tool-Planned question =
      by_markers (contains_any py question self_markers) (contains_any py question current_markers)
        (occurs_in (codes "比较") question || occurs_in (codes "相比") question)

  with_tool-Planned :
      (question : Text) (o : Option Text)
      → ((t : Text) → o ≡ some t → contains t mcp_tool_allowlist ≡ true)
      → Planned request (with_tool py request question o)
  unfolding tool_plan
  with_tool-Planned question none h = without_tool-Planned question
  with_tool-Planned question (some t) h = tool_with-Planned t _ (h t refl)

  -- The planner returns a plan for every request, never a validation error; the plan is the
  -- request's and keeps the bounds: one to four steps, numbered in order, at most one personal, one
  -- web and three tool steps, tools of the allowlist only, dependencies on earlier steps only, and the input of each tool step
  -- unless the plan asks for input.
  pub plan-Planned : Planned request (plan py request)
  unfolding plan
  plan-Planned =
      with_tool-Planned (py.strip request.question) _
        (λ t. listed mcp_tool_allowlist (py.strip request.question) t tool_markers refl)
