-- ===== src/Agent/Plan.antt =====
-- `PlanStep` and `AgentPlan` of src/zglab_rag/agent/planning.py, with their validators, and the
-- allowlist of src/zglab_rag/mcp/policy.py. The values of a tool's input are texts, as the planner
-- writes them.
use zglab_rag.Prelude.{
  ℕ, ◌+◌, Bool, true, false, ◌&&◌, Option, none, some, List, [], ◌∷◌, map, Text, codes, ◌==◌,
  text_eq, leb, if◌then◌else◌, length, all, count_if, contains,
}
use zglab_rag.Prelude.Dict.{Dict}

pub data PlanStepType : Type 0 where
  personal web tool : PlanStepType

pub data PlanStatus : Type 0 where
  ready needs_input failed : PlanStatus

pub record PlanStep : Type 0 where
  pub step_id : Text
  pub type : PlanStepType
  pub intent : Text
  pub tool_id : Option Text
  pub tool_input : Option (Dict Text Text)
  pub depends_on : List Text

pub record AgentPlan : Type 0 where
  pub request_id : Text
  pub status : PlanStatus
  pub reason_code : Text
  pub steps : List PlanStep

abbrev pub mcp_tool_allowlist : List Text
mcp_tool_allowlist =
    codes "json_format"
    ∷ codes "json_minify"
    ∷ codes "json_validate"
    ∷ codes "base64_encode"
    ∷ codes "base64_decode"
    ∷ codes "url_encode"
    ∷ codes "url_decode"
    ∷ codes "text_count"
    ∷ codes "text_deduplicate"
    ∷ codes "timestamp_convert"
    ∷ []

abbrev pub type_beq : PlanStepType → PlanStepType → Bool
type_beq personal personal = true
type_beq web web = true
type_beq tool tool = true
type_beq _ _ = false

abbrev pub is_allowed : Option Text → Bool
is_allowed none = false
is_allowed (some t) = contains t mcp_tool_allowlist

abbrev pub is_absent {ℓ} : {A : Type ℓ} → Option A → Bool
is_absent none = true
is_absent (some a) = false

-- `^S[1-4]$`
abbrev pub matches_step_id : Text → Bool
matches_step_id (s ∷ d ∷ []) = (s ∷ []) == codes "S" && (leb b'1' d && leb d b'4')
matches_step_id _ = false

-- `validate_tool`
abbrev pub tool_fields_ok : PlanStepType → Option Text → Option (Dict Text Text) → Bool
tool_fields_ok tool tool_id tool_input = is_allowed tool_id
tool_fields_ok _ tool_id tool_input = is_absent tool_id && is_absent tool_input

unfoldable pub is_valid_step : PlanStep → Bool
is_valid_step s = matches_step_id s.step_id && tool_fields_ok s.type s.tool_id s.tool_input

-- `f"S{i}"` for the steps from number `i` on; a plan with a number of two digits is refused for its
-- length.
abbrev pub step_ids : ℕ → List PlanStep → List Text
step_ids i [] = []
step_ids i (s ∷ rest) = (b'S' ∷ (b'0' + i) ∷ []) ∷ step_ids (i + 1) rest

abbrev pub same_ids : List Text → List Text → Bool
same_ids [] [] = true
same_ids (x ∷ xs) (y ∷ ys) = x == y && same_ids xs ys
same_ids _ _ = false

abbrev pub count_type : PlanStepType → List PlanStep → ℕ
count_type t steps = count_if (λ s. type_beq s.type t) steps

-- Each dependency is a step before: the loop over `known`.
abbrev pub dependencies_known : List Text → List PlanStep → Bool
dependencies_known known [] = true
dependencies_known known (s ∷ rest) =
    all (λ d. contains d known) s.depends_on && dependencies_known (s.step_id ∷ known) rest

-- The counts and the numbers of `validate_bounds`.
abbrev pub within_bounds : List PlanStep → Bool
within_bounds steps =
    (leb 1 (length steps) && leb (length steps) 4)
    && (same_ids (map (λ s. s.step_id) steps) (step_ids 1 steps)
        && (leb (count_type personal steps) 1
            && (leb (count_type web steps) 1 && leb (count_type tool steps) 3)))

-- `validate_bounds`, after the validation of the steps
unfoldable pub is_valid_plan : AgentPlan → Bool
is_valid_plan p =
    (all is_valid_step p.steps && within_bounds p.steps) && dependencies_known [] p.steps

-- The constructor, where `none` is the `ValidationError`.
unfoldable pub validated : AgentPlan → Option AgentPlan
validated p = if is_valid_plan p then some p else none
