-- ===== src/Mcp/Runtime/Reach.antt =====
-- The runtimes that calls of the methods lead to, one after the other.
use zglab_rag.Prelude.{
  ℕ, ◌≤◌, ◌≡◌, refl, sym, ap, ◌∙◌, inl, inr, Bool, true, false, ◌&&◌, not, Option-cases, if-cases,
  and_true, Option, none, some, Text, ltb, arith, if◌then◌else◌,
}
use zglab_rag.Mcp.Contracts.{
  McpToolResult, mcp_call_timeout, mcp_process_exited, Json, object, Fields, mcp_disabled,
  mcp_tool_not_found, mcp_tool_not_allowed, mcp_invalid_input, unhealthy, closed, McpToolPolicy,
  is_allowed,
}
use zglab_rag.Mcp.Runtime.{
  Closing, closed_as, disconnect, close_connection, start_after, then_closed, called, Runtime, init,
  Start, CallOutcome, call_times_out, call_is_cancelled, call_fails, returns, Ends, value,
  mcp_error, raises, note, mark_unhealthy, is_ready, ensure_ready, close, listed, list_tools,
}
use zglab_rag.Mcp.Runtime.Call.{
  then_return, finished, host_error, in_catalog, is_none, dispatched, when_ready, refusal,
  call_tool,
}
use zglab_rag.Mcp.Runtime.Invariant.{
  IsKept, IsSound, Permitted, IsKept-state, enabled_if_connected, note-follows, note-Permitted,
  disconnect-IsKept, start-IsSound,
}

disconnect-connected : (rt : Runtime) → (disconnect rt).connected ≡ false
unfolding disconnect
disconnect-connected rt = ground arith

disconnect-state : (rt : Runtime) → (disconnect rt).state ≡ rt.state
unfolding disconnect
disconnect-state rt = ground arith

disconnect-enabled : (rt : Runtime) → (disconnect rt).enabled ≡ rt.enabled
unfolding disconnect
disconnect-enabled rt = ground arith

no_refusal :
    (p q : Bool) (bound size : ℕ)
    → (if not p
        then some mcp_disabled
        else (if not q
            then some mcp_tool_not_allowed
            else (if ltb bound size then some mcp_invalid_input else none)))
      ≡ none
    → (p ≡ true) × (q ≡ true) × (size ≤ bound)
no_refusal p q bound size h = ground arith

module _ (measure : Option Json → ℕ) (policy : McpToolPolicy) where
  abbrev Sound : Runtime → Type 0
  Sound rt = IsSound measure policy rt

  disconnect-IsSound : (rt : Runtime) → IsKept measure policy rt → Sound (disconnect rt)
  disconnect-IsSound rt k = record {
    kept = disconnect-IsKept measure policy rt k;
    known = λ e. cc (e, disconnect-connected rt);
  }

  start_after-IsSound :
      (e : Closing) (s : Start) (rt : Runtime)
      → Sound rt
      → rt.enabled ≡ true
      → (o : Ends (Unit {0})) → Sound (start_after policy s (o, disconnect rt)).1
  start_after-IsSound e s rt k on (value u) =
      start-IsSound measure policy (disconnect rt) (disconnect-IsKept measure policy rt k.kept)
        (disconnect-enabled rt ∙ on) (disconnect-connected rt) s
  start_after-IsSound e s rt k on (mcp_error code) = disconnect-IsSound rt k.kept
  start_after-IsSound e s rt k on raises = disconnect-IsSound rt k.kept

  pub ensure_ready-IsSound :
      (e : Closing) (s : Start) (rt : Runtime)
      → Sound rt
      → rt.enabled ≡ true
      → Sound (ensure_ready policy e s rt).1
  unfolding ensure_ready
  ensure_ready-IsSound e s rt k on =
      if-cases (λ x. Sound x.1) (is_ready rt.state && rt.connected) (value tt, rt)
        (start_after policy s (close_connection e rt)) (λ t. k)
        (λ t. start_after-IsSound e s rt k on (closed_as rt.connected e))

  mark_unhealthy-IsSound :
      (e : Closing) (rt : Runtime) → IsKept measure policy rt → Sound (mark_unhealthy e rt).1
  mark_unhealthy-IsSound e rt k =
      disconnect-IsSound (record rt { state = unhealthy })
        (IsKept-state measure policy rt unhealthy k)

  then_closed-IsSound :
      (o : Ends (Unit {0})) (rt : Runtime)
      → Sound rt
      → rt.connected ≡ false
      → Sound (then_closed policy (o, rt)).1
  then_closed-IsSound (value u) rt k h =
      if-cases Sound rt.enabled (record rt { state = closed }) rt
        (λ on. record {
          kept = IsKept-state measure policy rt closed k.kept;
          known = λ e. cc (h, e);
        })
        (λ off. k)
  then_closed-IsSound (mcp_error code) rt k h = k
  then_closed-IsSound raises rt k h = k

  close-IsSound : (e : Closing) (rt : Runtime) → Sound rt → Sound (close policy e rt).1
  unfolding close
  close-IsSound e rt k =
      then_closed-IsSound (closed_as rt.connected e) (disconnect rt) (disconnect-IsSound rt k.kept)
        (disconnect-connected rt)

  listed-IsSound : (x : Ends (Unit {0}) × Runtime) → Sound x.1 → Sound (listed policy x).1
  listed-IsSound (value u, rt) k = k
  listed-IsSound (mcp_error code, rt) k = k
  listed-IsSound (raises, rt) k = k

  list_tools-IsSound :
      (e : Closing) (s : Start) (rt : Runtime) → Sound rt → Sound (list_tools policy e s rt).1
  unfolding list_tools
  list_tools-IsSound e s rt k =
      if-cases (λ x. Sound x.1) rt.enabled (listed policy (ensure_ready policy e s rt))
        (mcp_error mcp_disabled, rt)
        (λ on. listed-IsSound (ensure_ready policy e s rt) (ensure_ready-IsSound e s rt k on))
        (λ off. k)

  then_return-IsSound :
      (r : McpToolResult) (x : Ends (Unit {0}) × Runtime) → Sound x.1 → Sound (then_return r x).1
  then_return-IsSound r (value u, rt) k = k
  then_return-IsSound r (mcp_error code, rt) k = k
  then_return-IsSound r (raises, rt) k = k

  finished-IsSound :
      (t : Text) (o : CallOutcome) (rt : Runtime)
      → Sound rt
      → Sound (finished measure policy t o rt).1
  finished-IsSound t (call_times_out e) rt k =
      then_return-IsSound (host_error t mcp_call_timeout) (mark_unhealthy e rt)
        (mark_unhealthy-IsSound e rt k.kept)
  finished-IsSound t (call_is_cancelled e) rt k = mark_unhealthy-IsSound e rt k.kept
  finished-IsSound t (call_fails e) rt k =
      then_return-IsSound (host_error t mcp_process_exited) (mark_unhealthy e rt)
        (mark_unhealthy-IsSound e rt k.kept)
  finished-IsSound t (returns outcome) rt k = k

  called-IsSound :
      (t : Text) (a : Fields) (rt : Runtime)
      → Sound rt
      → rt.connected ≡ true
      → Permitted measure policy (called t a)
      → Sound (note (called t a) rt)
  called-IsSound t a rt k h w = record {
    kept = record {
      conversation =
          note-follows measure policy (called t a) rt true k.kept (rw h refl) ∙ ap some (sym h);
      permitted = note-Permitted measure policy (called t a) rt k.kept w;
      checked = k.kept.checked;
      idle = λ e. cc (enabled_if_connected measure policy rt k.kept h, e);
    };
    known = k.known;
  }

  module _ (t : Text) (a : Fields) (o : CallOutcome)
      (w : Permitted measure policy (called t a)) where
    dispatched-IsSound : (rt : Runtime) → Sound rt → Sound (dispatched measure policy t a o rt).1
    dispatched-IsSound rt k =
        if-cases (λ x. Sound x.1) (rt.connected && not (is_none rt.catalog))
          (if in_catalog t rt.catalog
            then finished measure policy t o (note (called t a) rt)
            else (value (host_error t mcp_tool_not_found), rt))
          (raises, rt)
          (λ e.
            if-cases (λ x. Sound x.1) (in_catalog t rt.catalog)
              (finished measure policy t o (note (called t a) rt))
              (value (host_error t mcp_tool_not_found), rt)
              (λ i.
                finished-IsSound t o (note (called t a) rt) (
                  called-IsSound t a rt k (and_true rt.connected (not (is_none rt.catalog)) e).0 w))
              (λ i. k))
          (λ e. k)

    when_ready-IsSound :
        (x : Ends (Unit {0}) × Runtime) → Sound x.1 → Sound (when_ready measure policy t a o x).1
    when_ready-IsSound (value u, rt) k = dispatched-IsSound rt k
    when_ready-IsSound (mcp_error code, rt) k = k
    when_ready-IsSound (raises, rt) k = k

  -- What the host's tests let through.
  pub refusal-none :
      (t : Text) (a : Fields) (rt : Runtime)
      → refusal measure policy t a rt ≡ none
      → (rt.enabled ≡ true) × Permitted measure policy (called t a)
  refusal-none t a rt h =
      let w =
        no_refusal rt.enabled (is_allowed t) policy.max_request_bytes (measure (some (object a)))
          h in
      (w.0, (w.1, w.2))

  call_tool-IsSound :
      (t : Text) (a : Fields) (c : Closing) (s : Start) (o : CallOutcome) (rt : Runtime)
      → Sound rt
      → Sound (call_tool measure policy t a c s o rt).1
  unfolding call_tool
  call_tool-IsSound t a c s o rt k = elim (Option-cases (refusal measure policy t a rt)) [
    | inl e ↦
        let w = refusal-none t a rt e in
        rw e (
          when_ready-IsSound t a o w.1 (ensure_ready policy c s rt)
            (ensure_ready-IsSound c s rt k w.0))
    | inr (code, e) ↦ rw e k
  ]

  -- What the methods lead to, from a runtime that was just made, one call after the other.
  pub data Reach (on : Bool) : Runtime → Type 0 where
    made : Reach on (init on)
    after_list_tools :
        (e : Closing) (s : Start) (rt : Runtime)
        → Reach on rt
        → Reach on (list_tools policy e s rt).1
    after_call_tool :
        (t : Text) (a : Fields) (e : Closing) (s : Start) (o : CallOutcome) (rt : Runtime)
        → Reach on rt
        → Reach on (call_tool measure policy t a e s o rt).1
    after_close : (e : Closing) (rt : Runtime) → Reach on rt → Reach on (close policy e rt).1

  init-IsSound : (on : Bool) → Sound (init on)
  unfolding init
  init-IsSound on = record {
    kept = record { conversation = refl; permitted = tt; checked = λ e. cc; idle = λ e. refl };
    known = λ e. cc;
  }

  pub Reach-IsSound : (on : Bool) (rt : Runtime) → Reach on rt → IsSound measure policy rt
  Reach-IsSound on _ made = init-IsSound on
  Reach-IsSound on _ (after_list_tools e s rt r) = list_tools-IsSound e s rt (Reach-IsSound on rt r)
  Reach-IsSound on _ (after_call_tool t a e s o rt r) =
      call_tool-IsSound t a e s o rt (Reach-IsSound on rt r)
  Reach-IsSound on _ (after_close e rt r) = close-IsSound e rt (Reach-IsSound on rt r)
