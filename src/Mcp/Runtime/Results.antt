-- ===== src/Mcp/Runtime/Results.antt =====
-- What a result of `call_tool` of src/zglab_rag/mcp/runtime.py vouches for.
use zglab_rag.Prelude.{
  ℕ, Bool, true, false, ◌⊎◌, ◌≤◌, ◌≡◌, refl, inl, inr, ◌&&◌, not, Option-cases, if-cases,
  if◌then◌else◌, Option, none, some, Text, codes, ltb, arith,
}
use zglab_rag.Mcp.Contracts.{
  unhealthy, mcp_call_timeout, mcp_process_exited, Json, Fields, McpToolResult, success, error,
  RawToolOutcome, McpToolPolicy, mcp_output_too_large, mcp_protocol_error, mcp_tool_not_found, get,
}
use zglab_rag.Mcp.Runtime.{
  Closing, close_returns, close_fails, close_is_cancelled, closed_as, disconnect, called, Runtime,
  Start, CallOutcome, call_times_out, call_is_cancelled, call_fails, returns, Ends, value,
  mcp_error, raises, note, ensure_ready, is_text,
}
use zglab_rag.Mcp.Runtime.Call.{
  then_return, host_error, measured, server_success, server_error, fields_of, fields_or_empty,
  to_result, finished, in_catalog, is_none, when_ready, refusal, call_tool,
}

module _ (measure : Option Json → ℕ) (policy : McpToolPolicy) where
  -- An output of the tool is within the bound.
  abbrev pub FitsResponse : Text → McpToolResult → Type 0
  FitsResponse t (success tool_id output) =
      (tool_id ≡ t) × (measure output ≤ policy.max_response_bytes)
  FitsResponse t (error tool_id code message details) = tool_id ≡ t

  abbrev pub Fits : Text → Ends McpToolResult → Type 0
  Fits t (value r) = FitsResponse t r
  Fits t (mcp_error code) = ⊥
  Fits t raises = Unit

  measured-FitsResponse :
      (t : Text) (output : Option Json) → FitsResponse t (measured measure policy t output)
  measured-FitsResponse t output =
      if-cases (FitsResponse t) (ltb policy.max_response_bytes (measure output))
        (host_error t mcp_output_too_large) (success t output) (λ e. refl)
        (λ e. (refl, ground arith))

  server_success-FitsResponse :
      (t : Text) (o : Option Fields) → FitsResponse t (server_success measure policy t o)
  server_success-FitsResponse t none = refl
  server_success-FitsResponse t (some sc) =
      if-cases (FitsResponse t) (is_text (codes "success") (get (codes "status") sc))
        (measured measure policy t (get (codes "result") sc)) (host_error t mcp_protocol_error)
        (λ e. measured-FitsResponse t (get (codes "result") sc)) (λ e. refl)

  to_result-FitsResponse :
      (t : Text) (o : RawToolOutcome) → FitsResponse t (to_result measure policy t o)
  unfolding to_result
  to_result-FitsResponse t o =
      if-cases (FitsResponse t) o.is_error
        (server_error t (fields_or_empty (fields_of o.structured_content)) o.content_text)
        (server_success measure policy t (fields_of o.structured_content)) (λ e. refl)
        (λ e. server_success-FitsResponse t (fields_of o.structured_content))

  -- Closing a connection raises no `MCPError`.
  closed_as-not_mcp_error :
      (b : Bool) (e : Closing) → (closed_as b e ≡ value tt) ⊎ (closed_as b e ≡ raises)
  closed_as-not_mcp_error true close_returns = inl refl
  closed_as-not_mcp_error true close_fails = inl refl
  closed_as-not_mcp_error true close_is_cancelled = inr refl
  closed_as-not_mcp_error false e = inl refl

  then_return-Fits :
      (t : Text) (r : McpToolResult) (b : Bool) (e : Closing) (rt : Runtime)
      → FitsResponse t r
      → Fits t (then_return r (closed_as b e, rt)).0
  then_return-Fits t r b e rt h = elim (closed_as-not_mcp_error b e) [
    | inl v ↦ rw v h
    | inr v ↦ rw v tt
  ]

  finished-Fits :
      (t : Text) (o : CallOutcome) (rt : Runtime) → Fits t (finished measure policy t o rt).0
  finished-Fits t (call_times_out e) rt =
      then_return-Fits t (host_error t mcp_call_timeout) rt.connected e
        (disconnect (record rt { state = unhealthy })) refl
  finished-Fits t (call_is_cancelled e) rt = tt
  finished-Fits t (call_fails e) rt =
      then_return-Fits t (host_error t mcp_process_exited) rt.connected e
        (disconnect (record rt { state = unhealthy })) refl
  finished-Fits t (returns o) rt = to_result-FitsResponse t o

  when_ready-Fits :
      (t : Text) (a : Fields) (o : CallOutcome) (x : Ends (Unit {0}) × Runtime)
      → Fits t (when_ready measure policy t a o x).0
  when_ready-Fits t a o (value u, rt) =
      if-cases (λ x. Fits t x.0) (rt.connected && not (is_none rt.catalog))
        (if in_catalog t rt.catalog
          then finished measure policy t o (note (called t a) rt)
          else (value (host_error t mcp_tool_not_found), rt))
        (raises, rt)
        (λ e.
          if-cases (λ x. Fits t x.0) (in_catalog t rt.catalog)
            (finished measure policy t o (note (called t a) rt))
            (value (host_error t mcp_tool_not_found), rt)
            (λ i. finished-Fits t o (note (called t a) rt)) (λ i. refl))
        (λ e. tt)
  when_ready-Fits t a o (mcp_error code, rt) = refl
  when_ready-Fits t a o (raises, rt) = tt

  -- Whatever the server does, `call_tool` never lets an `MCPError` out, its result names the tool that was
  -- called, and an output in it is within the response bound.
  pub call_tool-Fits :
      (t : Text) (a : Fields) (c : Closing) (s : Start) (o : CallOutcome) (rt : Runtime)
      → Fits t (call_tool measure policy t a c s o rt).0
  unfolding call_tool
  call_tool-Fits t a c s o rt = elim (Option-cases (refusal measure policy t a rt)) [
    | inl e ↦ rw e (when_ready-Fits t a o (ensure_ready policy c s rt))
    | inr (code, e) ↦ rw e refl
  ]
