-- ===== src/Mcp/Runtime/Call.antt =====
-- `call_tool` and `_to_result` of src/zglab_rag/mcp/runtime.py.
use zglab_rag.Prelude.{
  ℕ, Bool, true, false, ◌&&◌, not, Option, none, some, [], ◌∷◌, Text, codes, ltb, text_eq,
  if◌then◌else◌, contains,
}
use zglab_rag.Mcp.Contracts.{
  Json, text, object, Fields, no_fields, get, McpErrorCode, mcp_disabled, mcp_tool_not_allowed,
  mcp_tool_not_found, mcp_invalid_input, mcp_call_timeout, mcp_protocol_error, mcp_output_too_large,
  mcp_process_exited, map_server_error_code, ToolCatalogSnapshot, tool_ids, host, server,
  McpToolResult, success, error, RawToolOutcome, McpToolPolicy, is_allowed,
}
use zglab_rag.Mcp.Runtime.{
  Runtime, called, Closing, Start, CallOutcome, call_times_out, call_is_cancelled, call_fails,
  returns, Ends, value, mcp_error, raises, note, mark_unhealthy, ensure_ready, is_text,
}

-- `_error`
abbrev pub host_error : Text → McpErrorCode → McpToolResult
host_error tool_id code = error tool_id code (host code) none

abbrev pub content_or_default : Option Text → Text
content_or_default none = codes "tool execution failed"
content_or_default (some []) = codes "tool execution failed"
content_or_default (some (c ∷ cs)) = c ∷ cs

abbrev pub message_of : Option Json → Option Text → Text
message_of (some (text t)) content = t
message_of _ content = content_or_default content

abbrev pub fields_of : Option Json → Option Fields
fields_of (some (object fields)) = some fields
fields_of _ = none

-- `structured if isinstance(structured, dict) else {}`
abbrev pub fields_or_empty : Option Fields → Fields
fields_or_empty none = no_fields
fields_or_empty (some fields) = fields

-- The branch of `is_error`
abbrev pub server_error : Text → Fields → Option Text → McpToolResult
server_error tool_id sc content =
    error tool_id (map_server_error_code (get (codes "code") sc))
      (server (message_of (get (codes "message") sc) content))
      (fields_of (get (codes "details") sc))

abbrev pub is_none : Option ToolCatalogSnapshot → Bool
is_none none = true
is_none (some c) = false

abbrev pub in_catalog : Text → Option ToolCatalogSnapshot → Bool
in_catalog tool_id none = false
in_catalog tool_id (some c) = contains tool_id (tool_ids c.tools)

abbrev pub then_return : McpToolResult → Ends (Unit {0}) × Runtime → Ends McpToolResult × Runtime
then_return r (value u, rt) = (value r, rt)
then_return r (mcp_error code, rt) = (mcp_error code, rt)
then_return r (raises, rt) = (raises, rt)

module _ (measure : Option Json → ℕ) (policy : McpToolPolicy) where
  abbrev pub measured : Text → Option Json → McpToolResult
  measured tool_id output =
      if ltb policy.max_response_bytes (measure output)
      then host_error tool_id mcp_output_too_large
      else success tool_id output

  abbrev pub server_success : Text → Option Fields → McpToolResult
  server_success tool_id none = host_error tool_id mcp_protocol_error
  server_success tool_id (some sc) =
      if is_text (codes "success") (get (codes "status") sc)
      then measured tool_id (get (codes "result") sc)
      else host_error tool_id mcp_protocol_error

  -- `_to_result`
  unfoldable pub to_result : Text → RawToolOutcome → McpToolResult
  to_result tool_id outcome =
      if outcome.is_error
      then server_error tool_id (fields_or_empty (fields_of outcome.structured_content))
          outcome.content_text
      else server_success tool_id (fields_of outcome.structured_content)

  abbrev pub finished : Text → CallOutcome → Runtime → Ends McpToolResult × Runtime
  finished tool_id (call_times_out e) rt =
      then_return (host_error tool_id mcp_call_timeout) (mark_unhealthy e rt)
  finished tool_id (call_is_cancelled e) rt = (raises, (mark_unhealthy e rt).1)
  finished tool_id (call_fails e) rt =
      then_return (host_error tool_id mcp_process_exited) (mark_unhealthy e rt)
  finished tool_id (returns outcome) rt = (value (to_result tool_id outcome), rt)

  -- From the `assert` to the end.
  abbrev pub dispatched : Text → Fields → CallOutcome → Runtime → Ends McpToolResult × Runtime
  dispatched tool_id arguments outcome rt =
      if rt.connected && not (is_none rt.catalog)
      then if in_catalog tool_id rt.catalog
        then finished tool_id outcome (note (called tool_id arguments) rt)
        else (value (host_error tool_id mcp_tool_not_found), rt)
      else (raises, rt)

  abbrev pub when_ready :
      Text → Fields → CallOutcome → Ends (Unit {0}) × Runtime → Ends McpToolResult × Runtime
  when_ready tool_id arguments outcome (value u, rt) = dispatched tool_id arguments outcome rt
  when_ready tool_id arguments outcome (mcp_error code, rt) = (value (host_error tool_id code), rt)
  when_ready tool_id arguments outcome (raises, rt) = (raises, rt)

  -- The host's tests, before the connection.
  abbrev pub refusal : Text → Fields → Runtime → Option McpErrorCode
  refusal tool_id arguments rt =
      if not rt.enabled
      then some mcp_disabled
      else if not (is_allowed tool_id)
      then some mcp_tool_not_allowed
      else if ltb policy.max_request_bytes (measure (some (object arguments)))
      then some mcp_invalid_input
      else none

  abbrev pub unless_refused :
      Option McpErrorCode
      → Text
      → Fields
      → Closing
      → Start
      → CallOutcome
      → Runtime
      → Ends McpToolResult × Runtime
  unless_refused (some code) tool_id arguments e s outcome rt =
      (value (host_error tool_id code), rt)
  unless_refused none tool_id arguments e s outcome rt =
      when_ready tool_id arguments outcome (ensure_ready policy e s rt)

  unfoldable pub call_tool :
      Text → Fields → Closing → Start → CallOutcome → Runtime → Ends McpToolResult × Runtime
  call_tool tool_id arguments e s outcome rt =
      unless_refused (refusal tool_id arguments rt) tool_id arguments e s outcome rt
