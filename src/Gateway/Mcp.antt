-- ===== src/Gateway/Mcp.antt =====
-- What a call may do, and the records that it returns (app/harness/gateway/tool_gateway.py).
use project_b_multi_agent.Gateway.{
  Callable, Gateway, McpClient, Outcome, ToolCallRecord, ToolSpec, completed, dict_get, error_in,
  failed, get_tool, is_mcp_tool_allowed, raised, refused, returned,
}
use project_b_multi_agent.Gateway.Call.{
  call, call_local, call_mcp, call_with_retry, contact, dispatch, effective_task, finish,
  lookup_and_run, record_metrics, remote_name, retry_loop, run_local, run_mcp, with_count,
}
use project_b_multi_agent.Json.{Fields, join_text, null}
use project_b_multi_agent.Prelude.{
  Bool, Bool-cases, Option, Option-cases, String, [], ap, arith, false, if_no, if_yes, inl, inr,
  none, refl, some, suc, true, zero, ℕ, ◌+◌, ◌==◌, ◌∙◌, ◌∷◌, ◌≡◌, ◌⊎◌,
}

-- A finished record: `completed` with no error, or `failed`.
abbrev pub IsFinished : ToolCallRecord → Type 0
IsFinished r =
    ((r.success ≡ true) × (r.status ≡ completed) × (r.error ≡ null))
    ⊎ ((r.success ≡ false) × (r.status ≡ failed))

module _ {W : Type 0} where
  finish-IsFinished :
      (name : String) (arguments : Fields) (o : Outcome) (w : W)
      → IsFinished (finish name arguments (o, w)).0
  finish-IsFinished name arguments (raised message) w = inr (refl, refl)
  finish-IsFinished name arguments (returned v) w = elim (Option-cases (error_in v)) [
    | inl clean ↦ ground arith
    | inr (e, bad) ↦ ground arith
  ]

  call_local-IsFinished :
      (g : Gateway W) (name : String) (arguments : Fields) (w : W)
      → IsFinished (call_local g name arguments w).0
  unfolding call_local
  call_local-IsFinished g name arguments w = run (dict_get name g.callables)
    where
      run : (c : Option (Option (Callable W))) → IsFinished (run_local c name arguments w).0
      run none = inr (refl, refl)
      run (some none) = inr (refl, refl)
      run (some (some f)) = let (o, w') = f arguments w in finish-IsFinished name arguments o w'

  contact-IsFinished :
      (spec : ToolSpec) (server name : String) (client : Option (McpClient W)) (allowed : Bool)
      (arguments : Fields) (w : W)
      → IsFinished (contact spec server name client allowed arguments w).0
  contact-IsFinished spec server name none allowed arguments w = inr (refl, refl)
  contact-IsFinished spec server name (some client) false arguments w = inr (refl, refl)
  contact-IsFinished spec server name (some client) true arguments w =
      let (o, w') = client name arguments w in finish-IsFinished spec.tool_name arguments o w'

  run_mcp-IsFinished :
      (g : Gateway W) (spec : ToolSpec) (server : Option String) (arguments : Fields) (w : W)
      → IsFinished (run_mcp g spec server arguments w).0
  run_mcp-IsFinished g spec none arguments w = inr (refl, refl)
  run_mcp-IsFinished g spec (some server) arguments w =
      let name = remote_name spec spec.mcp_tool_name in
      contact-IsFinished spec server name (dict_get server g.mcp_clients)
        (is_mcp_tool_allowed server name g) arguments w

  retry_loop-IsFinished :
      (attempt : W → ToolCallRecord × W) (left count : ℕ) (s : ToolCallRecord × W)
      → ((w : W) → IsFinished (attempt w).0)
      → IsFinished s.0
      → IsFinished (retry_loop attempt left count s).0
  unfolding retry_loop
  retry_loop-IsFinished attempt zero count s h f = f
  retry_loop-IsFinished attempt (suc left) count s h f =
      let rest = retry_loop-IsFinished attempt left (count + 1) (attempt s.1) h (h s.1) in
      elim (Bool-cases s.0.success) [
        | inl done ↦ rw (if_yes s.0.success _ _ done) f
        | inr again ↦ rw (if_no s.0.success _ _ again) rest
      ]

  record_metrics-IsFinished :
      (m : Option (ToolCallRecord → String → W → W)) (task : String) (s : ToolCallRecord × W)
      → IsFinished s.0
      → IsFinished (record_metrics m task s).0
  record_metrics-IsFinished none task s h = h
  record_metrics-IsFinished (some _) task s h = h

  dispatch-IsFinished :
      (g : Gateway W) (spec : ToolSpec) (name : String) (arguments : Fields) (w : W)
      → IsFinished (dispatch g spec name arguments w).0
  unfolding call_with_retry call_mcp
  dispatch-IsFinished g spec name arguments w = elim (Bool-cases (spec.source == "mcp")) [
    | inl remote ↦
        let local_attempt = λ (w : W). run_mcp-IsFinished g spec spec.server_name arguments w in
        rw (if_yes (spec.source == "mcp") _ _ remote)
          (retry_loop-IsFinished _ spec.max_retries 0 _ local_attempt (local_attempt w))
    | inr nearby ↦
        let attempt = λ (w : W). call_local-IsFinished g name arguments w in
        rw (if_no (spec.source == "mcp") _ _ nearby)
          (retry_loop-IsFinished _ spec.max_retries 0 _ attempt (attempt w))
  ]

  -- Whatever a tool or a server does, also when it raises or is not there, `call` returns a
  -- finished record: completed with no error, or failed.
  pub call-IsFinished :
      (g : Gateway W) (name : String) (arguments : Fields) (task : String) (w : W)
      → IsFinished (call g name arguments task w).0
  unfolding call
  call-IsFinished g name arguments task w =
      record_metrics-IsFinished g.metrics_recorder _ _ (run (get_tool name g))
    where
      run : (found : Option ToolSpec) → IsFinished (lookup_and_run found g name arguments w).0
      run none = inr (refl, refl)
      run (some spec) = dispatch-IsFinished g spec name arguments w

  -- A refusal is repeated by each retry, and the world stays as it was.
  retry_loop_refused :
      (attempt : W → ToolCallRecord × W) (left count : ℕ) (r : ToolCallRecord) (w : W)
      → attempt w ≡ (r, w)
      → r.success ≡ false
      → retry_loop attempt left count (r, w) ≡ (with_count (count + left) r, w)
  unfolding retry_loop
  retry_loop_refused attempt zero count r w h f = ap (λ n. (with_count n r, w)) (omega arith)
  retry_loop_refused attempt (suc left) count r w h f =
      if_no r.success _ _ f
      ∙ ap (retry_loop attempt left (count + 1)) h
      ∙ retry_loop_refused attempt left (count + 1) r w h f
      ∙ ap (λ n. (with_count n r, w)) (omega arith)

  abbrev refusal : ToolSpec → String → String → Fields → Option (McpClient W) → ToolCallRecord
  refusal spec server name arguments none =
      refused spec.tool_name arguments (join_text ("MCP Server '" ∷ server ∷ "' 未注册" ∷ []))
  refusal spec server name arguments (some _) =
      refused spec.tool_name arguments
        (join_text ("MCP tool '" ∷ name ∷ "' is not allowed by MCP_TOOL_ALLOWLIST" ∷ []))

  contact-refused :
      (spec : ToolSpec) (server name : String) (client : Option (McpClient W)) (arguments : Fields)
      (w : W)
      → contact spec server name client false arguments w
        ≡ (refusal spec server name arguments client, w)
  contact-refused spec server name none arguments w = refl
  contact-refused spec server name (some _) arguments w = refl

  refusal_fails :
      (spec : ToolSpec) (server name : String) (arguments : Fields) (client : Option (McpClient W))
      → (refusal spec server name arguments client).success ≡ false
  refusal_fails spec server name arguments none = refl
  refusal_fails spec server name arguments (some _) = refl

  abbrev mcp_refusal : Gateway W → ToolSpec → String → Fields → ToolCallRecord
  mcp_refusal g spec server arguments =
      refusal spec server (remote_name spec spec.mcp_tool_name) arguments
        (dict_get server g.mcp_clients)

  run_mcp-refused :
      (g : Gateway W) (spec : ToolSpec) (server : String) (arguments : Fields) (w : W)
      → is_mcp_tool_allowed server (remote_name spec spec.mcp_tool_name) g ≡ false
      → run_mcp g spec (some server) arguments w ≡ (mcp_refusal g spec server arguments, w)
  run_mcp-refused g spec server arguments w no_entry =
      let name = remote_name spec spec.mcp_tool_name in
      let client = dict_get server g.mcp_clients in
      ap (λ b. contact spec server name client b arguments w) no_entry
      ∙ contact-refused spec server name client arguments w

  dispatch-refused :
      (g : Gateway W) (spec : ToolSpec) (server name : String) (arguments : Fields) (w : W)
      → spec.source ≡ "mcp"
      → spec.server_name ≡ some server
      → is_mcp_tool_allowed server (remote_name spec spec.mcp_tool_name) g ≡ false
      → dispatch g spec name arguments w
        ≡ (with_count spec.max_retries (mcp_refusal g spec server arguments), w)
  unfolding call_with_retry call_mcp
  dispatch-refused g spec server name arguments w remote at_server no_entry =
      let r = mcp_refusal g spec server arguments in
      let attempt = λ (w : W). run_mcp g spec spec.server_name arguments w in
      let first : attempt w ≡ (r, w) =
        ap (λ o. run_mcp g spec o arguments w) at_server
        ∙ run_mcp-refused g spec server arguments w no_entry in
      let fails =
        refusal_fails spec server (remote_name spec spec.mcp_tool_name) arguments
          (dict_get server g.mcp_clients) in
      if_yes (spec.source == "mcp") _ _ (ap (λ s. s == "mcp") remote)
      ∙ ap (retry_loop attempt spec.max_retries 0) first
      ∙ retry_loop_refused attempt spec.max_retries 0 r w first fails
      ∙ ap (λ n. (with_count n r, w)) (omega arith)

  -- A tool of an MCP server that the server's allowlist leaves out is never called: `call` fails
  -- and does nothing to the world beyond what the metrics recorder does, whatever the client is.
  pub call-not_allowed :
      (g : Gateway W) (spec : ToolSpec) (server name : String) (arguments : Fields) (task : String)
      (w : W)
      → get_tool name g ≡ some spec
      → spec.source ≡ "mcp"
      → spec.server_name ≡ some server
      → is_mcp_tool_allowed server (remote_name spec spec.mcp_tool_name) g ≡ false
      → (r : ToolCallRecord) × (r.success ≡ false)
        × (call g name arguments task w
            ≡ record_metrics g.metrics_recorder (effective_task task g) (r, w))
  unfolding call
  call-not_allowed g spec server name arguments task w found remote at_server no_entry = (
    with_count spec.max_retries (mcp_refusal g spec server arguments),
    refusal_fails spec server (remote_name spec spec.mcp_tool_name) arguments
        (dict_get server g.mcp_clients),
    ap
          (λ f.
            record_metrics g.metrics_recorder (effective_task task g)
              (lookup_and_run f g name arguments w))
          found
        ∙ ap (record_metrics g.metrics_recorder (effective_task task g))
            (dispatch-refused g spec server name arguments w remote at_server no_entry),
  )
