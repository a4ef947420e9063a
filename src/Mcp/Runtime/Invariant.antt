-- ===== src/Mcp/Runtime/Invariant.antt =====
-- What holds of the runtime of src/zglab_rag/mcp/runtime.py whatever is done with it.
use zglab_rag.Prelude.{
  ℕ, ◌≤◌, ◌≡◌, refl, sym, ap, ◌∙◌, inl, inr, Bool, true, false, Bool-cases, Option-cases, Option,
  none, some, List, [], ◌∷◌, ◌++◌, All, All-append, Text, ◌==◌, text_eq,
}
use zglab_rag.Agent.Plan.{mcp_tool_allowlist}
use zglab_rag.Mcp.Contracts.{
  Json, object, McpErrorCode, ready, unhealthy, mcp_contract_mismatch, ServerIdentity,
  McpToolDescriptor, ToolCatalogSnapshot, tool_ids, McpToolPolicy, is_allowed, McpToolRuntimeState,
}
use zglab_rag.Mcp.Runtime.{
  Event, opened, shut, called, Runtime, Start, fails_to_open, fails_when_open, starts, by_id,
  has_object_schema, allowed_tools, validated_catalog, note, disconnect, map_start_failure,
  is_ready, abandon, adopt, start,
}

-- The last step of a conversation with one server after another: whether one is running.
abbrev pub advance : Option Bool → Event → Option Bool
advance (some false) opened = some true
advance (some true) shut = some false
advance (some true) (called tool_id arguments) = some true
advance _ e = none

abbrev pub follows : Option Bool → List Event → Option Bool
follows o [] = o
follows o (e ∷ es) = follows (advance o e) es

-- The tools found are those asked for.
by_id-id :
    (id : Text) (ds : List McpToolDescriptor) (d : McpToolDescriptor)
    → by_id id ds ≡ some d
    → d.id ≡ id
by_id-id id [] d h = cc
by_id-id id (e ∷ ds) d h = elim (Option-cases (by_id id ds)) [
  | inl n ↦ elim (Bool-cases (e.id == id)) [
    | inl m ↦ cc (rw (n, m) at h, (text_eq.beq_iff e.id id).0 m)
    | inr m ↦ cc (rw (n, m) at h)
  ]
  | inr (x, m) ↦ by_id-id id ds d (m ∙ rw m at h)
]

allowed_tools-ids :
    (ids : List Text) (ds ts : List McpToolDescriptor)
    → allowed_tools ids ds ≡ some ts
    → tool_ids ts ≡ ids
allowed_tools-ids [] ds ts h = cc
allowed_tools-ids (id ∷ ids) ds ts h = elim (Option-cases (by_id id ds)) [
  | inl n ↦ cc (rw n at h)
  | inr (d, n) ↦ elim (Option-cases (allowed_tools ids ds)) [
    | inl m ↦ cc (rw (n, m) at h)
    | inr (us, m) ↦ elim (Bool-cases (has_object_schema d.input_schema)) [
      | inl b ↦ cc (rw (n, m, b) at h, by_id-id id ds d n, allowed_tools-ids ids ds us m)
      | inr b ↦ cc (rw (n, m, b) at h)
    ]
  ]
]

follows-append :
    (o : Option Bool) (es ds : List Event) → follows o (es ++ ds) ≡ follows (follows o es) ds
follows-append o [] ds = refl
follows-append o (e ∷ es) ds = follows-append (advance o e) es ds

module _ (measure : Option Json → ℕ) (policy : McpToolPolicy) where
  abbrev pub Permitted : Event → Type 0
  Permitted (called tool_id arguments) =
      (is_allowed tool_id ≡ true) × (measure (some (object arguments)) ≤ policy.max_request_bytes)
  Permitted _ = Unit

  -- A catalog of the expected server that has the allowlist's tools, in its order.
  abbrev pub IsChecked : ToolCatalogSnapshot → Type 0
  IsChecked c =
      (c.identity.name ≡ policy.expected_server_name) × (tool_ids c.tools ≡ mcp_tool_allowlist)

  -- What `disconnect` keeps by itself.
  pub record IsKept (rt : Runtime) : Type 0 where
    pub conversation : follows (some false) rt.log ≡ some rt.connected
    pub permitted : All Permitted rt.log
    pub checked :
        rt.connected ≡ true → (c : ToolCatalogSnapshot) × (rt.catalog ≡ some c) × IsChecked c
    pub idle : rt.enabled ≡ false → rt.log ≡ []

  pub record IsSound (rt : Runtime) : Type 0 where
    pub kept : IsKept rt
    pub known : rt.connected ≡ true → is_ready rt.state ≡ true

  validated_catalog-IsChecked :
      (identity : ServerIdentity) (ds : List McpToolDescriptor) (c : ToolCatalogSnapshot)
      → validated_catalog policy identity ds ≡ some c
      → IsChecked c
  unfolding validated_catalog
  validated_catalog-IsChecked identity ds c h =
      elim (Bool-cases (identity.name == policy.expected_server_name)) [
        | inl e ↦ elim (Option-cases (allowed_tools mcp_tool_allowlist ds)) [
          | inl n ↦ cc (rw (e, n) at h)
          | inr (ts, n) ↦ (
            cc (rw (e, n) at h, (text_eq.beq_iff identity.name policy.expected_server_name).0 e),
            cc (rw (e, n) at h, allowed_tools-ids mcp_tool_allowlist ds ts n),
          )
        ]
        | inr e ↦ cc (rw e at h)
      ]

  pub note-follows :
      (e : Event) (rt : Runtime) (b : Bool)
      → IsKept rt
      → advance (some rt.connected) e ≡ some b
      → follows (some false) (rt.log ++ e ∷ []) ≡ some b
  note-follows e rt b k h =
      follows-append (some false) rt.log (e ∷ []) ∙ ap (λ o. advance o e) k.conversation ∙ h

  pub note-Permitted :
      (e : Event) (rt : Runtime) → IsKept rt → Permitted e → All Permitted (rt.log ++ e ∷ [])
  note-Permitted e rt k h = All-append Permitted rt.log (e ∷ []) k.permitted (h, tt)

  pub IsKept-state :
      (rt : Runtime) (s : McpToolRuntimeState) → IsKept rt → IsKept (record rt { state = s })
  IsKept-state rt s k = record {
    conversation = k.conversation;
    permitted = k.permitted;
    checked = k.checked;
    idle = k.idle;
  }

  IsKept-unconnected :
      (rt : Runtime) (c : Option ToolCatalogSnapshot)
      → IsKept rt
      → rt.connected ≡ false
      → IsKept (record rt { connected = false; catalog = c })
  IsKept-unconnected rt c k h = record {
    conversation = k.conversation ∙ ap some h;
    permitted = k.permitted;
    checked = λ e. cc;
    idle = k.idle;
  }

  -- A connection is there only when the runtime is enabled.
  pub enabled_if_connected : (rt : Runtime) → IsKept rt → rt.connected ≡ true → rt.enabled ≡ true
  enabled_if_connected rt k h = elim (Bool-cases rt.enabled) [
    | inl e ↦ e
    | inr e ↦ cc (k.conversation, ap (follows (some false)) (k.idle e), h)
  ]

  pub absent : (rt : Runtime) → IsKept rt → rt.enabled ≡ false → rt.connected ≡ false
  absent rt k off = elim (Bool-cases rt.connected) [
    | inl h ↦ cc (enabled_if_connected rt k h, off)
    | inr h ↦ h
  ]

  pub IsKept-shut :
      (rt : Runtime)
      → IsKept rt
      → rt.connected ≡ true
      → IsKept (note shut (record rt { connected = false; catalog = none }))
  IsKept-shut rt k h = record {
    conversation = note-follows shut rt false k (rw h refl);
    permitted = note-Permitted shut rt k tt;
    checked = λ e. cc;
    idle = λ e. cc (enabled_if_connected rt k h, e);
  }

  pub disconnect-IsKept : (rt : Runtime) → IsKept rt → IsKept (disconnect rt)
  unfolding disconnect
  disconnect-IsKept rt k = elim (Bool-cases rt.connected) [
    | inl h ↦ rw h (IsKept-shut rt k h)
    | inr h ↦ rw h (IsKept-unconnected rt none k h)
  ]

  -- A server that is started and closed again.
  IsKept-tried :
      (rt : Runtime) (s : McpToolRuntimeState)
      → IsKept rt
      → rt.enabled ≡ true
      → rt.connected ≡ false
      → IsKept (record (note shut (note opened rt)) { state = s })
  IsKept-tried rt s k on h = record {
    conversation =
        follows-append (some false) (rt.log ++ opened ∷ []) (shut ∷ [])
        ∙ ap (λ o. advance o shut) (note-follows opened rt true k (rw h refl))
        ∙ ap some (sym h);
    permitted =
        All-append Permitted (rt.log ++ opened ∷ []) (shut ∷ []) (note-Permitted opened rt k tt)
          (tt, tt);
    checked = λ e. cc (h, e);
    idle = λ e. cc (on, e);
  }

  kept_adopted :
      (rt : Runtime) (c : ToolCatalogSnapshot)
      → IsKept rt
      → rt.enabled ≡ true
      → rt.connected ≡ false
      → IsChecked c
      → IsSound (record (note opened rt) { connected = true; catalog = some c; state = ready })
  kept_adopted rt c k on h w = record {
    kept = record {
      conversation = note-follows opened rt true k (rw h refl);
      permitted = note-Permitted opened rt k tt;
      checked = λ e. (c, refl, w);
      idle = λ e. cc (on, e);
    };
    known = λ e. refl;
  }

  module _ (rt : Runtime) (k : IsKept rt) (on : rt.enabled ≡ true) (h : rt.connected ≡ false) where
    abandon-IsSound :
        (code : McpErrorCode) (b : Bool) → IsSound (abandon policy code b (note opened rt)).1
    abandon-IsSound code true = record {
      kept = IsKept-tried rt unhealthy k on h;
      known = λ e. cc (h, e);
    }
    abandon-IsSound code false = record {
      kept = IsKept-tried rt rt.state k on h;
      known = λ e. cc (h, e);
    }

    adopt-IsSound :
        (o : Option ToolCatalogSnapshot) (b : Bool)
        → ((c : ToolCatalogSnapshot) → o ≡ some c → IsChecked c)
        → IsSound (adopt policy o b (note opened rt)).1
    adopt-IsSound none b w = abandon-IsSound mcp_contract_mismatch b
    adopt-IsSound (some c) b w = kept_adopted rt c k on h (w c refl)

    pub start-IsSound : (s : Start) → IsSound (start policy s rt).1
    start-IsSound (fails_to_open f) = record {
      kept = IsKept-state rt unhealthy k;
      known = λ e. cc (h, e);
    }
    start-IsSound (fails_when_open f b) = abandon-IsSound (map_start_failure f) b
    start-IsSound (starts identity ds b) =
        adopt-IsSound (validated_catalog policy identity ds) b
          (validated_catalog-IsChecked identity ds)
