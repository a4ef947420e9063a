-- ===== src/Mcp/Runtime.antt =====
-- `MCPToolRuntime` of src/zglab_rag/mcp/runtime.py, one call at a time (the semaphore's default). What
-- the connection does is given with each call; `measure` is the length of the JSON in bytes.
pub mod Call
pub mod Invariant
pub mod Reach
pub mod Recovery
pub mod Results
use zglab_rag.Prelude.{
  ℕ, ◌+◌, Bool, true, false, ◌&&◌, ◌||◌, not, Option, none, some, List, [], ◌∷◌, ◌++◌, Text, codes,
  ltb, ◌==◌, text_eq, if◌then◌else◌, contains,
}
use zglab_rag.Agent.Plan.{mcp_tool_allowlist}
use zglab_rag.Mcp.Contracts.{
  Json, text, object, Fields, no_fields, get, McpErrorCode, mcp_disabled, mcp_start_failed,
  mcp_handshake_failed, mcp_contract_mismatch, mcp_tool_not_allowed, mcp_tool_not_found,
  mcp_invalid_input, mcp_call_timeout, mcp_protocol_error, mcp_output_too_large, mcp_process_exited,
  map_server_error_code, McpToolRuntimeState, disabled, not_started, ready, unhealthy, closed,
  ServerIdentity, McpToolDescriptor, ToolCatalogSnapshot, tool_ids, Message, host, server,
  McpToolResult, success, error, RawToolOutcome, McpToolPolicy, is_allowed,
}

-- What is done to the server.
pub data Event : Type 0 where
  opened shut : Event
  called : Text → Fields → Event

-- The fields of the runtime, and what it has done; `connected` is whether there is a connection.
pub record Runtime : Type 0 where
  pub enabled : Bool
  pub connected : Bool
  pub catalog : Option ToolCatalogSnapshot
  pub state : McpToolRuntimeState
  pub log : List Event

-- `__init__`
unfoldable pub init : Bool → Runtime
init enabled = record {
  enabled = enabled;
  connected = false;
  catalog = none;
  state = if enabled then not_started else disabled;
  log = [];
}

pub data StartFailure : Type 0 where
  timed_out os_or_value_error any_other : StartFailure

-- How a start ends: with a failure, before there is a connection, or after, and then whether the
-- connection's `aclose` returns; or with what the server says of itself.
pub data Start : Type 0 where
  fails_to_open : StartFailure → Start
  fails_when_open : StartFailure → Bool → Start
  starts : ServerIdentity → List McpToolDescriptor → Bool → Start

-- How the `aclose` of a connection ends: it returns, it fails or takes too long, or it is cancelled.
pub data Closing : Type 0 where
  close_returns close_fails close_is_cancelled : Closing

-- How a call of a tool ends, and where the connection is closed after it, how that ends.
pub data CallOutcome : Type 0 where
  call_times_out call_is_cancelled call_fails : Closing → CallOutcome
  returns : RawToolOutcome → CallOutcome

-- `_map_start_failure`
unfoldable pub map_start_failure : StartFailure → McpErrorCode
map_start_failure timed_out = mcp_start_failed
map_start_failure os_or_value_error = mcp_start_failed
map_start_failure any_other = mcp_handshake_failed

abbrev pub or_last : Option McpToolDescriptor → Bool → McpToolDescriptor → Option McpToolDescriptor
or_last (some d) b e = some d
or_last none true e = some e
or_last none false e = none

-- `by_id.get`
abbrev pub by_id : Text → List McpToolDescriptor → Option McpToolDescriptor
by_id id [] = none
by_id id (d ∷ ds) = or_last (by_id id ds) (d.id == id) d

abbrev pub is_text : Text → Option Json → Bool
is_text t (some (text s)) = s == t
is_text t _ = false

abbrev pub has_object_schema : Json → Bool
has_object_schema (object fields) = is_text (codes "object") (get (codes "type") fields)
has_object_schema _ = false

abbrev pub with_tool :
    Option McpToolDescriptor → Option (List McpToolDescriptor) → Option (List McpToolDescriptor)
with_tool none rest = none
with_tool (some d) none = none
with_tool (some d) (some ds) = if has_object_schema d.input_schema then some (d ∷ ds) else none

-- The loop of `_validate_catalog`; `none` is a contract mismatch.
abbrev pub allowed_tools : List Text → List McpToolDescriptor → Option (List McpToolDescriptor)
allowed_tools [] descriptors = some []
allowed_tools (id ∷ ids) descriptors =
    with_tool (by_id id descriptors) (allowed_tools ids descriptors)

abbrev pub snapshot : ServerIdentity → Option (List McpToolDescriptor) → Option ToolCatalogSnapshot
snapshot identity none = none
snapshot identity (some tools) = some (record { identity = identity; tools = tools })

-- `_validate_identity`, then `_validate_catalog`
unfoldable pub validated_catalog :
    McpToolPolicy → ServerIdentity → List McpToolDescriptor → Option ToolCatalogSnapshot
validated_catalog policy identity descriptors =
    if identity.name == policy.expected_server_name
    then snapshot identity (allowed_tools mcp_tool_allowlist descriptors)
    else none

-- How a method ends: with a value, with an `MCPError`, or with another exception.
pub data Ends (A : Type 0) : Type 0 where
  value : A → Ends A
  mcp_error : McpErrorCode → Ends A
  raises : Ends A

abbrev pub note : Event → Runtime → Runtime
note e rt = record rt { log = rt.log ++ e ∷ [] }

-- What `_close_connection` does to the fields, before it awaits anything.
unfoldable pub disconnect : Runtime → Runtime
disconnect rt =
    if rt.connected
    then note shut (record rt { connected = false; catalog = none })
    else record rt { catalog = none }

-- `except Exception`: a failure is swallowed, a cancellation is not.
abbrev pub closed_as : Bool → Closing → Ends (Unit {0})
closed_as true close_is_cancelled = raises
closed_as _ e = value tt

-- `_close_connection`
abbrev pub close_connection : Closing → Runtime → Ends (Unit {0}) × Runtime
close_connection e rt = (closed_as rt.connected e, disconnect rt)

-- `_mark_unhealthy`
abbrev pub mark_unhealthy : Closing → Runtime → Ends (Unit {0}) × Runtime
mark_unhealthy e rt = close_connection e (record rt { state = unhealthy })

abbrev pub is_ready : McpToolRuntimeState → Bool
is_ready ready = true
is_ready _ = false

module _ (policy : McpToolPolicy) where
  -- The failure of a start that had a connection: it is closed, and if that raises, nothing more.
  abbrev pub abandon : McpErrorCode → Bool → Runtime → Ends (Unit {0}) × Runtime
  abandon code true rt = (mcp_error code, record (note shut rt) { state = unhealthy })
  abandon code false rt = (raises, note shut rt)

  abbrev pub adopt : Option ToolCatalogSnapshot → Bool → Runtime → Ends (Unit {0}) × Runtime
  adopt none closes rt = abandon mcp_contract_mismatch closes rt
  adopt (some catalog) closes rt =
      (value tt, record rt { connected = true; catalog = some catalog; state = ready })

  abbrev pub start : Start → Runtime → Ends (Unit {0}) × Runtime
  start (fails_to_open f) rt = (mcp_error (map_start_failure f), record rt { state = unhealthy })
  start (fails_when_open f closes) rt = abandon (map_start_failure f) closes (note opened rt)
  start (starts identity descriptors closes) rt =
      adopt (validated_catalog policy identity descriptors) closes (note opened rt)

  abbrev pub start_after : Start → Ends (Unit {0}) × Runtime → Ends (Unit {0}) × Runtime
  start_after s (value u, rt) = start s rt
  start_after s (mcp_error code, rt) = (mcp_error code, rt)
  start_after s (raises, rt) = (raises, rt)

  unfoldable pub ensure_ready : Closing → Start → Runtime → Ends (Unit {0}) × Runtime
  ensure_ready e s rt =
      if is_ready rt.state && rt.connected
      then (value tt, rt)
      else start_after s (close_connection e rt)

  abbrev pub then_closed : Ends (Unit {0}) × Runtime → Ends (Unit {0}) × Runtime
  then_closed (value u, rt) = (value u, if rt.enabled then record rt { state = closed } else rt)
  then_closed (mcp_error code, rt) = (mcp_error code, rt)
  then_closed (raises, rt) = (raises, rt)

  -- `close`; when its closing of the connection is cancelled, the state stays.
  unfoldable pub close : Closing → Runtime → Ends (Unit {0}) × Runtime
  close e rt = then_closed (close_connection e rt)

  abbrev pub its_catalog : Option ToolCatalogSnapshot → Ends ToolCatalogSnapshot
  its_catalog none = raises
  its_catalog (some c) = value c

  abbrev pub listed : Ends (Unit {0}) × Runtime → Ends ToolCatalogSnapshot × Runtime
  listed (value u, rt) = (its_catalog rt.catalog, rt)
  listed (mcp_error code, rt) = (mcp_error code, rt)
  listed (raises, rt) = (raises, rt)

  unfoldable pub list_tools : Closing → Start → Runtime → Ends ToolCatalogSnapshot × Runtime
  list_tools e s rt =
      if rt.enabled then listed (ensure_ready e s rt) else (mcp_error mcp_disabled, rt)
