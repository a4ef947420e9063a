-- ===== src/Mcp/Contracts.antt =====
-- src/zglab_rag/mcp/contracts.py, errors.py and policy.py, over the values of JSON.
use zglab_rag.Prelude.{
  ℕ, Bool, true, false, Option, none, some, List, [], ◌∷◌, Text, codes, ◌==◌, text_eq, contains,
}
use zglab_rag.Prelude.Dict.{Dict, lookup}
use zglab_rag.Agent.Plan.{mcp_tool_allowlist}

mutual
  pub data Json : Type 0 where
    null : Json
    bool : Bool → Json
    number : ℕ → Json
    text : Text → Json
    array : Items → Json
    object : Fields → Json

  pub data Items : Type 0 where
    no_items : Items
    item : Json → Items → Items

  pub data Fields : Type 0 where
    no_fields : Fields
    field : Text → Json → Fields → Fields

abbrev pub or_later : Option Json → Bool → Json → Option Json
or_later (some v) b w = some v
or_later none true w = some w
or_later none false w = none

-- `d.get(key)`; of equal keys a Python `dict` has the last.
abbrev pub get : Text → Fields → Option Json
get key no_fields = none
get key (field k v rest) = or_later (get key rest) (k == key) v

pub data McpErrorCode : Type 0 where
  mcp_disabled mcp_start_failed mcp_handshake_failed mcp_contract_mismatch : McpErrorCode
  mcp_tool_not_allowed mcp_tool_not_found mcp_invalid_input mcp_call_timeout : McpErrorCode
  mcp_protocol_error mcp_output_too_large mcp_process_exited mcp_internal_error : McpErrorCode

abbrev pub server_to_host : Dict Text McpErrorCode
server_to_host =
    (codes "INVALID_INPUT", mcp_invalid_input)
    ∷ (codes "INPUT_TOO_LARGE", mcp_invalid_input)
    ∷ (codes "UNSUPPORTED_OPTION", mcp_invalid_input)
    ∷ (codes "OUTPUT_TOO_LARGE", mcp_output_too_large)
    ∷ (codes "EXECUTION_TIMEOUT", mcp_call_timeout)
    ∷ (codes "TOOL_NOT_FOUND", mcp_tool_not_found)
    ∷ (codes "TOOL_DISABLED", mcp_tool_not_allowed)
    ∷ (codes "INTERNAL_TOOL_ERROR", mcp_internal_error)
    ∷ []

abbrev pub or_internal : Option McpErrorCode → McpErrorCode
or_internal none = mcp_internal_error
or_internal (some c) = c

-- The known codes are the keys of the table.
unfoldable pub map_server_error_code : Option Json → McpErrorCode
map_server_error_code (some (text raw)) = or_internal (lookup raw server_to_host)
map_server_error_code _ = mcp_internal_error

pub data McpToolRuntimeState : Type 0 where
  disabled not_started ready unhealthy closed : McpToolRuntimeState

pub record ServerIdentity : Type 0 where
  pub name : Text
  pub version : Text
  pub protocol_version : Text

pub record McpToolDescriptor : Type 0 where
  pub id : Text
  pub title : Option Text
  pub description : Option Text
  pub input_schema : Json
  pub annotations : Fields

pub record ToolCatalogSnapshot : Type 0 where
  pub identity : ServerIdentity
  pub tools : List McpToolDescriptor

abbrev pub tool_ids : List McpToolDescriptor → List Text
tool_ids [] = []
tool_ids (d ∷ ds) = d.id ∷ tool_ids ds

-- A message of the host, for a code, or one of the server.
pub data Message : Type 0 where
  host : McpErrorCode → Message
  server : Text → Message

pub data McpToolResult : Type 0 where
  success : Text → Option Json → McpToolResult
  error : Text → McpErrorCode → Message → Option Fields → McpToolResult

pub record RawToolOutcome : Type 0 where
  pub structured_content : Option Json
  pub is_error : Bool
  pub content_text : Option Text

-- The allowlist is the frozen one.
pub record McpToolPolicy : Type 0 where
  pub expected_server_name : Text
  pub max_request_bytes : ℕ
  pub max_response_bytes : ℕ

abbrev pub is_allowed : Text → Bool
is_allowed tool_id = contains tool_id mcp_tool_allowlist
