-- ===== src/Gateway/Call.antt =====
-- The calls of app/harness/gateway/tool_gateway.py: discovery, one attempt, the retry loop, `call`.
use project_b_multi_agent.Gateway.{
  Callable, Gateway, McpClient, Outcome, ToolCallRecord, ToolInfo, ToolSpec, dict_get, dict_put,
  get_tool, is_mcp_tool_allowed, mcp_spec, record_of, refused,
}
use project_b_multi_agent.Json.{Fields, join_text}
use project_b_multi_agent.Prelude.{
  Bool, List, Option, String, [], false, if◌then◌else◌, none, some, suc, true, zero, ℕ, ◌+◌, ◌==◌,
  ◌∷◌,
}

-- `spec.mcp_tool_name or spec.tool_name`
abbrev pub remote_name : ToolSpec → Option String → String
remote_name spec none = spec.tool_name
remote_name spec (some n) = if n == "" then spec.tool_name else n

abbrev pub with_count : ℕ → ToolCallRecord → ToolCallRecord
with_count n r = record r { retry_count = n }

module _ {W : Type 0} where
  -- the loop body of `discover_mcp_tools`, over the list that `client.list_tools()` returned
  discover_loop : String → List ToolInfo → Gateway W → Gateway W × List ToolSpec
  discover_loop server_name [] g = (g, [])
  discover_loop server_name (info ∷ infos) g =
      let allowed = is_mcp_tool_allowed server_name info.name g in
      let spec = mcp_spec server_name info in
      let g' = record g {
        registry = dict_put info.name spec g.registry;
        callables = dict_put info.name none g.callables;
      } in
      let (last, specs) = discover_loop server_name infos (if allowed then g' else g) in
      (last, if allowed then spec ∷ specs else specs)

  unfoldable pub discover_mcp_tools : String → List ToolInfo → Gateway W → Gateway W × List ToolSpec
  unfolding discover_loop
  discover_mcp_tools server_name mcp_tools g = elim (dict_get server_name g.mcp_clients) [
    | none ↦ (g, [])
    | some client ↦ discover_loop server_name mcp_tools g
  ]

  abbrev pub finish : String → Fields → Outcome × W → ToolCallRecord × W
  finish tool_name arguments (outcome, w) = (record_of tool_name arguments outcome, w)

  -- one attempt at a local tool
  abbrev pub run_local : Option (Option (Callable W)) → String → Fields → W → ToolCallRecord × W
  run_local (some (some callable_fn)) tool_name arguments w =
      finish tool_name arguments (callable_fn arguments w)
  run_local _ tool_name arguments w =
      (refused tool_name arguments (join_text ("本地工具 '" ∷ tool_name ∷ "' 无可调用对象" ∷ [])), w)

  unfoldable pub call_local : Gateway W → String → Fields → W → ToolCallRecord × W
  call_local g tool_name arguments w =
      run_local (dict_get tool_name g.callables) tool_name arguments w

  -- one attempt at a tool of an MCP server: the client may be missing, the tool not allowed
  abbrev pub contact :
      ToolSpec → String → String → Option (McpClient W) → Bool → Fields → W → ToolCallRecord × W
  contact spec server_name mcp_tool_name none allowed arguments w = (
    refused spec.tool_name arguments (join_text ("MCP Server '" ∷ server_name ∷ "' 未注册" ∷ [])),
    w,
  )
  contact spec server_name mcp_tool_name (some client) false arguments w = (
    refused spec.tool_name arguments
        (join_text ("MCP tool '" ∷ mcp_tool_name ∷ "' is not allowed by MCP_TOOL_ALLOWLIST" ∷ [])),
    w,
  )
  contact spec server_name mcp_tool_name (some client) true arguments w =
      finish spec.tool_name arguments (client mcp_tool_name arguments w)

  abbrev pub run_mcp : Gateway W → ToolSpec → Option String → Fields → W → ToolCallRecord × W
  run_mcp g spec none arguments w = (
    refused spec.tool_name arguments
        (join_text ("MCP 工具 '" ∷ spec.tool_name ∷ "' 缺少 server_name" ∷ [])),
    w,
  )
  run_mcp g spec (some server_name) arguments w =
      let mcp_tool_name = remote_name spec spec.mcp_tool_name in
      contact spec server_name mcp_tool_name (dict_get server_name g.mcp_clients)
        (is_mcp_tool_allowed server_name mcp_tool_name g) arguments w

  unfoldable pub call_mcp : Gateway W → ToolSpec → Fields → W → ToolCallRecord × W
  call_mcp g spec arguments w = run_mcp g spec spec.server_name arguments w

  -- `while not record.success and retry_count < max_retries`: `left` is what remains of the
  -- retries, so the loop ends with them
  unfoldable pub retry_loop :
      (W → ToolCallRecord × W) → ℕ → ℕ → ToolCallRecord × W → ToolCallRecord × W
  retry_loop attempt zero count (r, w) = (with_count count r, w)
  retry_loop attempt (suc left) count (r, w) =
      let again = retry_loop attempt left (count + 1) (attempt w) in
      if r.success then (with_count count r, w) else again

  unfoldable pub call_with_retry : (W → ToolCallRecord × W) → ℕ → W → ToolCallRecord × W
  call_with_retry attempt max_retries w = retry_loop attempt max_retries 0 (attempt w)

  -- `task_id or self._current_task_id`
  abbrev pub effective_task : String → Gateway W → String
  effective_task task_id g = if task_id == "" then g.current_task_id else task_id

  abbrev pub record_metrics :
      Option (ToolCallRecord → String → W → W) → String → ToolCallRecord × W → ToolCallRecord × W
  record_metrics none task_id (r, w) = (r, w)
  record_metrics (some recorder) task_id (r, w) = (r, recorder r task_id w)

  -- the call of a registered tool, before the metrics
  abbrev pub dispatch : Gateway W → ToolSpec → String → Fields → W → ToolCallRecord × W
  dispatch g spec tool_name arguments w =
      if spec.source == "mcp"
      then call_with_retry (call_mcp g spec arguments) spec.max_retries w
      else call_with_retry (call_local g tool_name arguments) spec.max_retries w

  abbrev pub lookup_and_run : Option ToolSpec → Gateway W → String → Fields → W → ToolCallRecord × W
  lookup_and_run none g tool_name arguments w =
      (refused tool_name arguments (join_text ("工具 '" ∷ tool_name ∷ "' 未注册" ∷ [])), w)
  lookup_and_run (some spec) g tool_name arguments w = dispatch g spec tool_name arguments w

  unfoldable pub call : Gateway W → String → Fields → String → W → ToolCallRecord × W
  call g tool_name arguments task_id w =
      record_metrics g.metrics_recorder (effective_task task_id g)
        (lookup_and_run (get_tool tool_name g) g tool_name arguments w)
