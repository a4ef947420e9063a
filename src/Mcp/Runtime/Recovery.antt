-- ===== src/Mcp/Runtime/Recovery.antt =====
-- That a call of the runtime of src/zglab_rag/mcp/runtime.py has a result, and how it gets over a failure.
use zglab_rag.Prelude.{
  ℕ, ap, Bool-cases, ◌≤◌, ◌≡◌, ◌≢◌, refl, inl, inr, Bool, true, false, ◌&&◌, not, Option-cases,
  if-cases, and_true, Option, none, some, List, Text, arith,
}
use zglab_rag.Mcp.Contracts.{
  Json, object, Fields, McpErrorCode, mcp_contract_mismatch, mcp_call_timeout, mcp_process_exited,
  mcp_tool_not_found, ServerIdentity, McpToolDescriptor, ToolCatalogSnapshot, RawToolOutcome,
  McpToolPolicy, is_allowed,
}
use zglab_rag.Mcp.Runtime.{
  Closing, close_returns, close_fails, close_is_cancelled, closed_as, disconnect, start_after,
  called, Runtime, Start, fails_to_open, fails_when_open, starts, CallOutcome, call_times_out,
  call_is_cancelled, call_fails, returns, opened, map_start_failure, Ends, value, mcp_error, raises,
  note, validated_catalog, start, ensure_ready, close_connection, is_ready, abandon, adopt,
}
use zglab_rag.Mcp.Runtime.Call.{
  host_error, to_result, finished, in_catalog, is_none, when_ready, refusal, call_tool,
}
use zglab_rag.Mcp.Runtime.Invariant.{IsSound}
use zglab_rag.Mcp.Runtime.Reach.{ensure_ready-IsSound, refusal-none, Reach, Reach-IsSound}

-- The connection's `aclose` returns, where it comes to that.
abbrev pub Closes : Start → Type 0
Closes (fails_to_open f) = Unit
Closes (fails_when_open f closes) = closes ≡ true
Closes (starts identity descriptors closes) = closes ≡ true

-- The call is not cancelled, nor is the closing of the connection after it.
abbrev pub IsAwaited : CallOutcome → Type 0
IsAwaited (call_times_out e) = e ≢ close_is_cancelled
IsAwaited (call_is_cancelled e) = ⊥
IsAwaited (call_fails e) = e ≢ close_is_cancelled
IsAwaited (returns outcome) = Unit

closed_as-awaited : (b : Bool) (e : Closing) → e ≢ close_is_cancelled → closed_as b e ≡ value tt
closed_as-awaited true close_returns h = refl
closed_as-awaited true close_fails h = refl
closed_as-awaited true close_is_cancelled h = absurd (h refl)
closed_as-awaited false e h = refl

-- A result, not an exception.
abbrev pub HasResult : {A : Type 0} → Ends A → Type 0
HasResult {A = A} e = (a : A) × (e ≡ value a)

module _ (measure : Option Json → ℕ) (policy : McpToolPolicy) where
  -- `ensure_ready` leaves a connection behind, or an `MCPError`.
  abbrev Settled : Ends (Unit {0}) × Runtime → Type 0
  Settled (value u, rt) = rt.connected ≡ true
  Settled (mcp_error code, rt) = Unit
  Settled (raises, rt) = ⊥

  abandon-Settled :
      (code : McpErrorCode) (b : Bool) (rt : Runtime)
      → b ≡ true
      → Settled (abandon policy code b rt)
  abandon-Settled code true rt h = tt
  abandon-Settled code false rt h = cc

  adopt-Settled :
      (o : Option ToolCatalogSnapshot) (b : Bool) (rt : Runtime)
      → b ≡ true
      → Settled (adopt policy o b rt)
  adopt-Settled none b rt h = abandon-Settled mcp_contract_mismatch b rt h
  adopt-Settled (some c) b rt h = refl

  start-Settled : (s : Start) (rt : Runtime) → Closes s → Settled (start policy s rt)
  start-Settled (fails_to_open f) rt h = tt
  start-Settled (fails_when_open f b) rt h =
      abandon-Settled (map_start_failure f) b (note opened rt) h
  start-Settled (starts identity ds b) rt h =
      adopt-Settled (validated_catalog policy identity ds) b (note opened rt) h

  -- Where the runtime is not ready there is no connection, and nothing to wait for.
  unconnected :
      (rt : Runtime)
      → IsSound measure policy rt
      → (is_ready rt.state && rt.connected) ≡ false
      → rt.connected ≡ false
  unconnected rt k h = elim (Bool-cases rt.connected) [ inl e ↦ cc (h, e, k.known e) | inr e ↦ e ]

  ensure_ready-Settled :
      (c : Closing) (s : Start) (rt : Runtime)
      → IsSound measure policy rt
      → Closes s
      → Settled (ensure_ready policy c s rt)
  unfolding ensure_ready
  ensure_ready-Settled c s rt k h =
      if-cases Settled (is_ready rt.state && rt.connected) (value tt, rt)
        (start_after policy s (close_connection c rt))
        (λ e. (and_true (is_ready rt.state) rt.connected e).1)
        (λ e. rw (ap (λ b. closed_as b c) (unconnected rt k e)) (start-Settled s (disconnect rt) h))

  has_catalog :
      (rt : Runtime)
      → IsSound measure policy rt
      → rt.connected ≡ true
      → (rt.connected && not (is_none rt.catalog)) ≡ true
  has_catalog rt k h = let c = k.kept.checked h in rw (h, c.1) refl

  abbrev IsConnected : Ends (Unit {0}) × Runtime → Type 0
  IsConnected x = (x.0 ≡ value tt) × (x.1.connected ≡ true)

  ensure_ready-IsConnected :
      (e : Closing) (identity : ServerIdentity) (ds : List McpToolDescriptor) (closes : Bool)
      (c : ToolCatalogSnapshot)
      → validated_catalog policy identity ds ≡ some c
      → (rt : Runtime) → IsSound measure policy rt
      → IsConnected (ensure_ready policy e (starts identity ds closes) rt)
  unfolding ensure_ready
  ensure_ready-IsConnected e identity ds closes c good rt k =
      if-cases IsConnected (is_ready rt.state && rt.connected) (value tt, rt)
        (start_after policy (starts identity ds closes) (close_connection e rt))
        (λ t. (refl, (and_true (is_ready rt.state) rt.connected t).1))
        (λ t. rw (ap (λ b. closed_as b e) (unconnected rt k t), good) (refl, refl))

  no_reason :
      (t : Text) (a : Fields) (rt : Runtime)
      → rt.enabled ≡ true
      → is_allowed t ≡ true
      → measure (some (object a)) ≤ policy.max_request_bytes
      → refusal measure policy t a rt ≡ none
  no_reason t a rt enabled allowed small = rw (enabled, allowed) (ground arith)

  module _ (t : Text) (a : Fields) where
    finished-HasResult :
        (o : CallOutcome) (rt : Runtime)
        → IsAwaited o
        → HasResult (finished measure policy t o rt).0
    finished-HasResult (call_times_out e) rt h =
        rw (closed_as-awaited rt.connected e h) (host_error t mcp_call_timeout, refl)
    finished-HasResult (call_is_cancelled e) rt h = absurd h
    finished-HasResult (call_fails e) rt h =
        rw (closed_as-awaited rt.connected e h) (host_error t mcp_process_exited, refl)
    finished-HasResult (returns outcome) rt h = (to_result measure policy t outcome, refl)

    when_ready-HasResult :
        (o : CallOutcome) (x : Ends (Unit {0}) × Runtime)
        → IsAwaited o
        → IsSound measure policy x.1
        → Settled x
        → HasResult (when_ready measure policy t a o x).0
    when_ready-HasResult o (value u, rt) h k w = rw (has_catalog rt k w) (
        if-cases (λ x. HasResult x.0) (in_catalog t rt.catalog)
          (finished measure policy t o (note (called t a) rt))
          (value (host_error t mcp_tool_not_found), rt)
          (λ i. finished-HasResult o (note (called t a) rt) h)
          (λ i. (host_error t mcp_tool_not_found, refl)))
    when_ready-HasResult o (mcp_error code, rt) h k w = (host_error t code, refl)
    when_ready-HasResult o (raises, rt) h k w = absurd w

    -- From any runtime that calls of the methods led to, a call of a tool has a result, on every branch of
    -- `call_tool` (no assertion of it fails), provided that neither the call nor the closing of the
    -- connection after it is cancelled, and that closing a connection whose start failed does not raise.
    pub call_tool-HasResult :
        (on : Bool) (rt : Runtime) (c : Closing) (s : Start) (o : CallOutcome)
        → Reach measure policy on rt
        → Closes s
        → IsAwaited o
        → HasResult (call_tool measure policy t a c s o rt).0
    unfolding call_tool
    call_tool-HasResult on rt c s o r hs ho = elim (Option-cases (refusal measure policy t a rt)) [
      | inl e ↦
          let k = Reach-IsSound measure policy on rt r in
          let w = refusal-none measure policy t a rt e in
          rw e (
            when_ready-HasResult o (ensure_ready policy c s rt) ho
              (ensure_ready-IsSound measure policy c s rt k w.0) (ensure_ready-Settled c s rt k hs))
      | inr (code, e) ↦ rw e (host_error t code, refl)
    ]

    when_ready-returns :
        (o : RawToolOutcome) (x : Ends (Unit {0}) × Runtime)
        → IsSound measure policy x.1
        → IsConnected x
        → is_allowed t ≡ true
        → ((when_ready measure policy t a (returns o) x).0 ≡ value (to_result measure policy t o))
          × ((when_ready measure policy t a (returns o) x).1.connected ≡ true)
    when_ready-returns o (value u, rt) k w allowed =
        let h = k.kept.checked w.1 in rw (has_catalog rt k w.1, h.1, h.2.1, allowed) (refl, w.1)
    when_ready-returns o (mcp_error code, rt) k w allowed = cc (w.0)
    when_ready-returns o (raises, rt) k w allowed = cc (w.0)

    -- From any enabled runtime that calls of the methods led to (ready, or unhealthy after a timeout or a
    -- lost connection, or closed), a call of a tool on the allowlist with arguments within the bound gets
    -- what the server returns, as `to_result` reads it, and leaves a connection, when a server that may have
    -- to be started passes validation and the call of it returns.
    pub call_tool-Recovers :
        (on : Bool) (rt : Runtime) (e : Closing) (identity : ServerIdentity)
        (ds : List McpToolDescriptor) (closes : Bool) (c : ToolCatalogSnapshot) (o : RawToolOutcome)
        → Reach measure policy on rt
        → rt.enabled ≡ true
        → is_allowed t ≡ true
        → measure (some (object a)) ≤ policy.max_request_bytes
        → validated_catalog policy identity ds ≡ some c
        → ((call_tool measure policy t a e (starts identity ds closes) (returns o) rt).0
            ≡ value (to_result measure policy t o))
          × ((call_tool measure policy t a e (starts identity ds closes) (returns o) rt).1.connected
              ≡ true)
    unfolding call_tool
    call_tool-Recovers on rt e identity ds closes c o r enabled allowed small good =
        let k = Reach-IsSound measure policy on rt r in
        rw (no_reason t a rt enabled allowed small) (
          when_ready-returns o (ensure_ready policy e (starts identity ds closes) rt)
            (ensure_ready-IsSound measure policy e (starts identity ds closes) rt k enabled)
            (ensure_ready-IsConnected e identity ds closes c good rt k) allowed)
