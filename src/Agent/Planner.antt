-- ===== src/Agent/Planner.antt =====
-- `BoundedPlanner` of src/zglab_rag/agent/planning.py, and `_contains_any` of
-- src/zglab_rag/capabilities/selection.py. What Python does is a parameter: `str.strip`,
-- `str.lower`, and the search for a labelled value in a message.
pub mod Bounds
use zglab_rag.Prelude.{
  ℕ, ◌+◌, Bool, true, false, ◌&&◌, ◌||◌, not, Option, none, some, List, [], ◌∷◌, ◌++◌, Text, codes,
  nat_beq, text_eq, if◌then◌else◌, any,
}
use zglab_rag.Prelude.Dict.{Dict, lookup}
use zglab_rag.Agent.Plan.{
  PlanStepType, personal, web, tool, PlanStatus, ready, needs_input, PlanStep, AgentPlan, validated,
}

pub data MessageRole : Type 0 where
  user assistant : MessageRole

pub record ConversationContextMessage : Type 0 where
  pub role : MessageRole
  pub content : Text

-- The part of a request that the planner reads; the messages are those of its context.
pub record AgentRequest : Type 0 where
  pub request_id : Text
  pub question : Text
  pub messages : Option (List ConversationContextMessage)

-- `search_label labels content` is the group that the expression of `_history_argument`, made of the
-- labels, finds in the content.
pub record Python : Type 0 where
  pub strip : Text → Text
  pub lower : Text → Text
  pub search_label : List Text → Text → Option Text

abbrev pub starts_with : Text → Text → Bool
starts_with [] s = true
starts_with (c ∷ p) [] = false
starts_with (c ∷ p) (d ∷ s) = nat_beq c d && starts_with p s

-- `needle in text`
abbrev pub occurs_in : Text → Text → Bool
occurs_in needle [] = starts_with needle []
occurs_in needle (c ∷ s) = starts_with needle (c ∷ s) || occurs_in needle s

abbrev pub self_markers : List Text
self_markers =
    codes "我"
    ∷ codes "本人"
    ∷ codes "黄志高"
    ∷ codes "志高"
    ∷ codes "简历"
    ∷ codes "履历"
    ∷ codes "我的项目"
    ∷ codes "我的经历"
    ∷ []

abbrev pub current_markers : List Text
current_markers =
    codes "最新" ∷ codes "当前" ∷ codes "今天" ∷ codes "最近" ∷ codes "latest" ∷ codes "current" ∷ []

abbrev pub tool_markers : List (Text × List Text)
tool_markers =
    (codes "json_format", codes "json格式化" ∷ codes "json 格式化" ∷ codes "format json" ∷ [])
    ∷ (codes "base64_decode", codes "base64解码" ∷ codes "base64 解码" ∷ codes "decode base64" ∷ [])
    ∷ (codes "text_count", codes "统计这段文字" ∷ codes "文本统计" ∷ codes "text count" ∷ [])
    ∷ (codes "timestamp_convert", codes "时间戳" ∷ codes "timestamp" ∷ [])
    ∷ []

abbrev pub history_argument_labels : Dict Text (List Text)
history_argument_labels =
    (codes "json_format", codes "JSON" ∷ [])
    ∷ (codes "base64_decode", codes "Base64" ∷ [])
    ∷ (codes "text_count", codes "文本" ∷ codes "字符串" ∷ codes "内容" ∷ [])
    ∷ (codes "timestamp_convert", codes "时间戳" ∷ [])
    ∷ []

-- `re.split(r"[：:]", question, maxsplit=1)`: what stands after the first colon, of either width.
abbrev pub after_colon : Text → Option Text
after_colon [] = none
after_colon (c ∷ s) =
    let rest = after_colon s in if nat_beq c 65306 || nat_beq c b':' then some s else rest

-- `value or None`
abbrev pub or_none : Text → Option Text
or_none [] = none
or_none (c ∷ s) = some (c ∷ s)

abbrev pub bind_option {ℓ κ} : {A : Type ℓ} {B : Type κ} → Option A → (A → Option B) → Option B
bind_option none f = none
bind_option (some a) f = f a

abbrev pub or_else {ℓ} : {A : Type ℓ} → Option A → Option A → Option A
or_else none o = o
or_else (some a) o = some a

abbrev pub single_step : PlanStepType → Text → PlanStep
single_step kind intent = record {
  step_id = codes "S1";
  type = kind;
  intent = intent;
  tool_id = none;
  tool_input = none;
  depends_on = [];
}

module _ (py : Python) where
  abbrev pub contains_any : Text → List Text → Bool
  contains_any text markers = any (λ m. occurs_in (py.lower m) (py.lower text)) markers

  -- `next((tool for tool, markers in _TOOLS if …), None)`
  abbrev pub first_tool : Text → List (Text × List Text) → Option Text
  first_tool question [] = none
  first_tool question ((t, markers) ∷ rest) =
      let later = first_tool question rest in
      if contains_any question markers then some t else later

  unfoldable pub explicit_argument : Text → Option Text
  explicit_argument question = bind_option (after_colon question) (λ v. or_none (py.strip v))

  -- A message's value, if the user wrote it and it is not blank.
  abbrev pub labelled_value : List Text → ConversationContextMessage → Option Text
  labelled_value labels m = elim m.role [
    | user ↦ bind_option (py.search_label labels m.content) (λ v. or_none (py.strip v))
    | assistant ↦ none
  ]

  -- The loop over `reversed(context.messages)`: the last message that has a value.
  abbrev pub last_value : List Text → List ConversationContextMessage → Option Text
  last_value labels [] = none
  last_value labels (m ∷ rest) = or_else (last_value labels rest) (labelled_value labels m)

  abbrev pub value_for : Option (List Text) → Option (List ConversationContextMessage) → Option Text
  value_for (some (l ∷ labels)) (some messages) = last_value (l ∷ labels) messages
  value_for _ _ = none

  unfoldable pub history_argument : AgentRequest → Text → Option Text
  history_argument request tool_id =
      value_for (lookup tool_id history_argument_labels) request.messages

  unfoldable pub single : AgentRequest → PlanStepType → Text → Option AgentPlan
  single request kind reason = validated (record {
    request_id = request.request_id;
    status = ready;
    reason_code = reason;
    steps = single_step kind reason ∷ [];
  })

  abbrev pub tool_step : Text → Option (Dict Text Text) → PlanStep
  tool_step tool_id tool_input = record {
    step_id = codes "S1";
    type = tool;
    intent = codes "explicit tool";
    tool_id = some tool_id;
    tool_input = tool_input;
    depends_on = [];
  }

  abbrev pub tool_with : AgentRequest → Text → Option Text → Option AgentPlan
  tool_with request tool_id none = validated (record {
    request_id = request.request_id;
    status = needs_input;
    reason_code = codes "tool_input_required";
    steps = tool_step tool_id none ∷ [];
  })
  tool_with request tool_id (some argument) = validated (record {
    request_id = request.request_id;
    status = ready;
    reason_code = codes "explicit_tool";
    steps = tool_step tool_id (some ((codes "text", argument) ∷ [])) ∷ [];
  })

  unfoldable pub tool_plan : AgentRequest → Text → Text → Option AgentPlan
  tool_plan request tool_id question =
      tool_with request tool_id
        (or_else (explicit_argument question) (history_argument request tool_id))

  unfoldable pub comparison : AgentRequest → Option AgentPlan
  comparison request = validated (record {
    request_id = request.request_id;
    status = ready;
    reason_code = codes "personal_current_comparison";
    steps =
        single_step personal (codes "personal facts")
        ∷ record (single_step web (codes "current external context")) { step_id = codes "S2" }
        ∷ [];
  })

  abbrev pub without_tool : AgentRequest → Text → Option AgentPlan
  without_tool request question =
      let mine = contains_any question self_markers in
      let current = contains_any question current_markers in
      if mine && (current && (occurs_in (codes "比较") question || occurs_in (codes "相比") question))
      then comparison request
      else if mine
      then single request personal (codes "personal_integrity")
      else if current
      then single request web (codes "current_information")
      else single request personal (codes "default_personal")

  abbrev pub with_tool : AgentRequest → Text → Option Text → Option AgentPlan
  with_tool request question (some tool_id) = tool_plan request tool_id question
  with_tool request question none = without_tool request question

  unfoldable pub plan : AgentRequest → Option AgentPlan
  plan request =
      let question = py.strip request.question in
      with_tool request question (first_tool question tool_markers)
