-- ===== src/Mcp/Examples.antt =====
-- Concrete runs of the MCP runtime: a server that times out, and a call after that.
use zglab_rag.Prelude.{ℕ, ◌≡◌, refl, true, false, Option, none, some, List, map, Text, codes, arith}
use zglab_rag.Agent.Plan.{mcp_tool_allowlist}
use zglab_rag.Mcp.Contracts.{
  Json, text, object, no_fields, field, ServerIdentity, McpToolDescriptor, ToolCatalogSnapshot,
  RawToolOutcome, McpToolPolicy,
}
use zglab_rag.Mcp.Runtime.{
  close_fails, Runtime, init, Start, starts, call_times_out, returns, Ends, value,
  validated_catalog,
}
use zglab_rag.Mcp.Runtime.Call.{to_result, call_tool}
use zglab_rag.Mcp.Runtime.Reach.{Reach, made, after_call_tool}
use zglab_rag.Mcp.Runtime.Results.{Fits, call_tool-Fits}
use zglab_rag.Mcp.Runtime.Recovery.{HasResult, call_tool-HasResult, call_tool-Recovers}

-- Every value takes two bytes.
abbrev two_bytes : Option Json → ℕ
two_bytes j = 2

abbrev policy : McpToolPolicy
policy = record {
  expected_server_name = codes "toolbox";
  max_request_bytes = 100;
  max_response_bytes = 100;
}

abbrev toolbox : ServerIdentity
toolbox = record { name = codes "toolbox"; version = codes "1"; protocol_version = codes "2" }

abbrev described : Text → McpToolDescriptor
described id = record {
  id = id;
  title = none;
  description = none;
  input_schema = object (field (codes "type") (text (codes "object")) no_fields);
  annotations = no_fields;
}

abbrev offered : List McpToolDescriptor
offered = map described mcp_tool_allowlist

abbrev catalog : ToolCatalogSnapshot
catalog = record { identity = toolbox; tools = offered }

abbrev good_start : Start
good_start = starts toolbox offered true

abbrev tool : Text
tool = codes "url_encode"

abbrev answer : RawToolOutcome
answer = record {
  structured_content = some (object (field (codes "status") (text (codes "success")) no_fields));
  is_error = false;
  content_text = none;
}

abbrev timed_out_once : Runtime
timed_out_once =
    (call_tool two_bytes policy tool no_fields close_fails good_start (call_times_out close_fails)
      (init true)).1

timed_out_once-Reach : Reach two_bytes policy true timed_out_once
timed_out_once-Reach =
    after_call_tool tool no_fields close_fails good_start (call_times_out close_fails) (init true)
      made

timed_out_once-enabled : timed_out_once.enabled ≡ true
unfolding call_tool init zglab_rag.Mcp.Runtime.ensure_ready validated_catalog
    zglab_rag.Mcp.Runtime.disconnect
timed_out_once-enabled = refl

good_start-catalog : validated_catalog policy toolbox offered ≡ some catalog
unfolding validated_catalog
good_start-catalog = refl

call_tool-HasResult_example :
    HasResult
      (call_tool two_bytes policy tool no_fields close_fails good_start
        (returns answer)
        timed_out_once).0
call_tool-HasResult_example =
    call_tool-HasResult two_bytes policy tool no_fields true timed_out_once close_fails good_start
      (returns answer) timed_out_once-Reach refl tt

call_tool-Recovers_example :
    ((call_tool two_bytes policy tool no_fields close_fails good_start
        (returns answer)
        timed_out_once).0
      ≡ value (to_result two_bytes policy tool answer))
    × ((call_tool two_bytes policy tool no_fields close_fails good_start
          (returns answer)
          timed_out_once).1.connected
        ≡ true)
call_tool-Recovers_example =
    call_tool-Recovers two_bytes policy tool no_fields true timed_out_once close_fails toolbox
      offered true catalog answer timed_out_once-Reach timed_out_once-enabled refl (omega arith)
      good_start-catalog

call_tool-Fits_example :
    Fits two_bytes policy tool
      (call_tool two_bytes policy tool no_fields close_fails good_start
        (returns answer)
        timed_out_once).0
call_tool-Fits_example =
    call_tool-Fits two_bytes policy tool no_fields close_fails good_start (returns answer)
      timed_out_once
