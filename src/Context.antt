-- ===== src/Context.antt =====
-- app/harness/context/assembler.py: what the agent is told of a task. A dict that is `None` or
-- empty falls back to the default, so `None` is the empty dict here. The time is a number.
use project_b_multi_agent.Json.{Fields, Value, arr, dict, end, field, flag, get, num, obj, text}
use project_b_multi_agent.Prelude.{List, Option, String, [], false, none, some, true, ℕ, ◌∷◌}
use project_b_multi_agent.Resume.{or_fields}
use project_b_multi_agent.Resume.Steps.Report.{items_of}

pub record AgentContext : Type 0 where
  pub task_id : String
  pub user_query : String
  pub user_info : Fields
  pub available_tools : List String
  pub policies : Fields
  pub trace_context : Fields
  pub metadata : Fields
  pub assembled_at : ℕ

abbrev mock_user : Fields
mock_user = dict (
    ("user_id", text "mock_user_001")
    ∷ ("role", text "ops_analyst")
    ∷ ("department", text "运营部")
    ∷ [])

abbrev mock_policy : Fields
mock_policy =
    dict
      (("allow_high_risk", flag false) ∷ ("max_retries", num 1) ∷ ("timeout_seconds", num 30) ∷ [])

-- `memory_context.get("message_count", 0)`
abbrev message_count : Option Value → Value
message_count none = num 0
message_count (some v) = v

abbrev memory_fields : Fields → Fields
memory_fields end = end
memory_fields (field k v d) =
    field "memory_used" (flag true)
      (field "memory_message_count" (message_count (get "message_count" (field k v d))) end)

unfoldable pub assemble :
    String → String → Fields → List String → Fields → Fields → Fields → ℕ → AgentContext
assemble task_id query user_info available_tools policies trace_context memory_context now =
    record {
      task_id = task_id;
      user_query = query;
      user_info = or_fields user_info mock_user;
      available_tools = available_tools;
      policies = or_fields policies mock_policy;
      trace_context = trace_context;
      metadata = field "source" (text "context_assembler") (memory_fields memory_context);
      assembled_at = now;
    }

-- `ctx.model_dump(mode="json")`
abbrev pub dump_context : AgentContext → Fields
dump_context ctx = dict (
    ("task_id", text ctx.task_id)
    ∷ ("user_query", text ctx.user_query)
    ∷ ("user_info", obj ctx.user_info)
    ∷ ("available_tools", arr (items_of ctx.available_tools))
    ∷ ("policies", obj ctx.policies)
    ∷ ("trace_context", obj ctx.trace_context)
    ∷ ("metadata", obj ctx.metadata)
    ∷ ("assembled_at", num ctx.assembled_at)
    ∷ [])
