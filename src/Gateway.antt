-- ===== src/Gateway.antt =====
-- app/harness/gateway/tool_gateway.py: the registry of tools and the calls of them.
--
-- `W` is the state of the world outside: a local callable and an MCP client are functions that
-- may change it, and return a value or raise. A metrics recorder is a function on it too, whose
-- exceptions the gateway swallows. Of a `ToolCallRecord` the id, the time and the latency, which
-- come from `uuid4` and the clock, are left out, and so are the parts of a `ToolSpec` that no
-- code reads (description, schemas, timeout).
pub mod Dicts
pub mod Call
pub mod Retry
pub mod Mcp
use project_b_multi_agent.ApprovalStore.{RiskLevel}
use project_b_multi_agent.Json.{Fields, Value, get, null, obj, text, truthy}
use project_b_multi_agent.Prelude.{
  Bool, List, Option, String, [], false, if◌then◌else◌, map, mem_text, none, some, true, ℕ, ◌==◌,
  ◌∷◌,
}
use project_b_multi_agent.PyText.{split, strip}

pub record ToolSpec : Type 0 where
  pub tool_name : String
  pub risk_level : RiskLevel
  pub permission_scope : String
  pub max_retries : ℕ
  pub source : String
  pub server_name : Option String
  pub mcp_tool_name : Option String

pub data ToolCallStatus : Type 0 where
  running completed failed : ToolCallStatus

-- `error` is a text, or the value that a tool's result has under "error"
pub record ToolCallRecord : Type 0 where
  pub tool_name : String
  pub arguments : Fields
  pub result : Value
  pub status : ToolCallStatus
  pub success : Bool
  pub retry_count : ℕ
  pub error : Value

-- how a call of foreign code ends
pub data Outcome : Type 0 where
  returned : Value → Outcome
  raised : String → Outcome

-- `result.get("error")` if the result is a dict with a truthy error
abbrev pub error_in : Value → Option Value
error_in (obj d) = elim (get "error" d) [ none ↦ none | some e ↦ if truthy e then some e else none ]
error_in _ = none

abbrev pub record_of : String → Fields → Outcome → ToolCallRecord
record_of tool_name arguments (returned v) = elim (error_in v) [
  | some e ↦ record {
    tool_name = tool_name;
    arguments = arguments;
    result = v;
    status = failed;
    success = false;
    retry_count = 0;
    error = e;
  }
  | none ↦ record {
    tool_name = tool_name;
    arguments = arguments;
    result = v;
    status = completed;
    success = true;
    retry_count = 0;
    error = null;
  }
]
record_of tool_name arguments (raised message) = record {
  tool_name = tool_name;
  arguments = arguments;
  result = null;
  status = failed;
  success = false;
  retry_count = 0;
  error = text message;
}

-- a record of a call that was refused before it was made
abbrev pub refused : String → Fields → String → ToolCallRecord
refused tool_name arguments message = record {
  tool_name = tool_name;
  arguments = arguments;
  result = null;
  status = failed;
  success = false;
  retry_count = 0;
  error = text message;
}

-- the assignment `d[k] = v`, and `d.pop(k, None)`, of a Python dict
module _ {V : Type 0} where
  unfoldable pub dict_get : String → List (String × V) → Option V
  dict_get k [] = none
  dict_get k ((j, v) ∷ d) = if j == k then some v else dict_get k d

  unfoldable pub dict_put : String → V → List (String × V) → List (String × V)
  dict_put k v [] = (k, v) ∷ []
  dict_put k v ((j, w) ∷ d) = if j == k then (j, v) ∷ d else (j, w) ∷ dict_put k v d

  unfoldable pub dict_pop : String → List (String × V) → List (String × V)
  dict_pop k [] = []
  dict_pop k ((j, v) ∷ d) = if j == k then d else (j, v) ∷ dict_pop k d

pub data RawAllowlist : Type 0 where
  absent : RawAllowlist
  csv : String → RawAllowlist
  names : List String → RawAllowlist

abbrev strip_all : List String → List String
strip_all [] = []
strip_all (s ∷ ss) = let rest = strip_all ss in if strip s == "" then rest else strip s ∷ rest

-- a set, as the list of its elements
unfoldable pub parse_allowlist : RawAllowlist → List String
parse_allowlist absent = []
parse_allowlist (csv raw) = strip_all (split b',' raw)
parse_allowlist (names raw) = strip_all raw

-- `not allowlist or tool_name in allowlist`
abbrev pub passes : String → Option (List String) → Bool
passes tool_name none = true
passes tool_name (some []) = true
passes tool_name (some (t ∷ ts)) = mem_text tool_name (t ∷ ts)

-- what `client.list_tools()` says of a tool
pub record ToolInfo : Type 0 where
  pub name : String
  pub risk_level : RiskLevel
  pub permission_scope : String

abbrev pub mcp_spec : String → ToolInfo → ToolSpec
mcp_spec server_name info = record {
  tool_name = info.name;
  risk_level = info.risk_level;
  permission_scope = info.permission_scope;
  max_retries = 0;
  source = "mcp";
  server_name = some server_name;
  mcp_tool_name = some info.name;
}

-- an empty allowlist is no allowlist
abbrev pub store_allowlist :
    String → List String → List (String × List String) → List (String × List String)
store_allowlist server_name [] allowlists = dict_pop server_name allowlists
store_allowlist server_name (t ∷ ts) allowlists = dict_put server_name (t ∷ ts) allowlists

module _ (W : Type 0) where
  abbrev pub Callable : Type 0
  Callable = Fields → W → Outcome × W

  -- `client.call_tool(name, arguments)`
  abbrev pub McpClient : Type 0
  McpClient = String → Fields → W → Outcome × W

  pub record Gateway : Type 0 where
    pub registry : List (String × ToolSpec)
    pub callables : List (String × Option Callable)
    pub mcp_clients : List (String × McpClient)
    pub mcp_tool_allowlists : List (String × List String)
    pub metrics_recorder : Option (ToolCallRecord → String → W → W)
    pub current_task_id : String

module _ {W : Type 0} where
  unfoldable pub register : ToolSpec → Callable W → Gateway W → Gateway W
  register spec callable_fn g = record g {
    registry = dict_put spec.tool_name spec g.registry;
    callables = dict_put spec.tool_name (some callable_fn) g.callables;
  }

  pub set_metrics_recorder : Option (ToolCallRecord → String → W → W) → Gateway W → Gateway W
  set_metrics_recorder recorder g = record g { metrics_recorder = recorder }

  pub set_current_task_id : String → Gateway W → Gateway W
  set_current_task_id task_id g = record g { current_task_id = task_id }

  pub list_tools : Gateway W → List ToolSpec
  list_tools g = map (λ e. e.1) g.registry

  unfoldable pub get_tool : String → Gateway W → Option ToolSpec
  get_tool tool_name g = dict_get tool_name g.registry

  unfoldable pub register_mcp_server : String → McpClient W → RawAllowlist → Gateway W → Gateway W
  register_mcp_server server_name client tool_allowlist g = record g {
    mcp_clients = dict_put server_name client g.mcp_clients;
    mcp_tool_allowlists =
        store_allowlist server_name (parse_allowlist tool_allowlist) g.mcp_tool_allowlists;
  }

  unfoldable pub is_mcp_tool_allowed : String → String → Gateway W → Bool
  is_mcp_tool_allowed server_name tool_name g =
      passes tool_name (dict_get server_name g.mcp_tool_allowlists)
