-- ===== src/Lib.antt =====
-- A model of the approval and tool-calling core of the multi-agent service, with the theorems
-- that make it correct.
--
-- The program answers a query by calling tools. A plan's steps run in order; a tool of high risk
-- is not called but stored as an approval request, and once a person has approved it the resume
-- service calls it and goes on with the plan. The tools are called through a gateway, and what
-- may run is decided by a policy engine and an operation whitelist. A kernel or a coordinator of
-- agents chooses how a query is run; guards check the SQL, the texts and the cost of the language
-- model. State is kept in SQLite.
--
-- Files and the code that they model:
--   Prelude            helpers: Boolean tests, lists, tables as lists of rows with a key
--   PyText, Json       Python's text operations, and the JSON values that the program passes on
--                      (their `==` in Json/Same, where a text occurs in them in Json/Occurs)
--   ApprovalStore      app/storage/approval_store.py: SQLiteApprovalStore
--   CheckpointStore    app/storage/graph_checkpoint_store.py: SQLiteGraphCheckpointStore
--   TaskStore          app/storage/task_store.py: SQLiteTaskStore
--   Gateway            app/harness/gateway/tool_gateway.py: ToolGateway; the calls in Gateway/Call
--   Policy             app/harness/policy/engine.py and operation_whitelist.py
--   Resolve            the placeholders `$name.path` of app/services/approval_resume.py
--                      (_resolve_value) and app/services/multitool_pipeline.py
--   Resume             app/services/approval_resume.py (ApprovalResumeService: Resume/Service for
--                      resume, Resume/Multitool for its modes, Resume/Steps for
--                      _execute_subsequent_steps) and app/agent/graph/resume_adapter.py
--                      (GraphResumeAdapter: Resume/Graph)
--   Raise              code that changes a state and may raise, for the two parts that follow
--   Keyword            app/agent/nodes/planner.py: the routing table and KeywordPlanner
--   Context, Hooks, Memory
--                      app/harness/context/assembler.py, app/harness/hooks/pipeline.py and
--                      app/harness/memory/short_term.py
--   GraphRun           app/agent/graph/runtime_adapter.py: GraphRuntimeAdapter.run_keyword
--                      (GraphRun/Stages; the dicts that it builds in GraphRun/Responses) and
--                      app/agent/graph/interrupts.py
--   Kernel             app/agent/graph/kernel.py: AgentKernel (Kernel/Stages for _assemble_context
--                      to _respond and _run_sequential, Kernel/Graph for build_graph,
--                      Kernel/Modes for run, run_with_options and the modes)
--   MultiAgent         app/agent/multi_agent: one module for each of coordinator, executor, reviewer
--                      and orchestrator; the analyst in MultiAgent itself
--   Injection          app/harness/security/injection_guard.py: PromptInjectionGuard; the search for
--                      a regular expression is a parameter
--   Pii                app/harness/security/pii_guard.py: PIIGuard; the matches of its patterns are a
--                      parameter
--   Budget             app/harness/llm/budget.py: LLMBudgetManager and its estimates; the arithmetic
--                      of its floats is a parameter
--   SqlGuard           app/agent/nl2sql/sql_guard.py: SQLGuard; upper case and word characters
--                      outside ASCII are a parameter
--   Planner, Pipeline  app/agent/nodes/multitool_planner.py and
--                      app/services/multitool_pipeline.py: MultiToolPipeline.run (what it
--                      reports in Pipeline/Report)
--   RequestGuards      app/core/request_guards.py: the rate limiters and the middlewares' decisions
--   Access             app/auth/dependencies.py: roles and permissions of the endpoints
--   Tests              concrete data, and each theorem at it
-- A definition has the name of the function that it models, without a leading underscore; a
-- function with many returns is a chain of definitions, one for each stage.
--
-- Conventions. A table is the list of its rows; an INSERT with an id that is taken is `none`, the
-- exception of the program. A JSON column holds the value that it decodes to. Ids that the code
-- draws and times are arguments, and times are numbers that order as their ISO texts do. Numbers
-- in JSON are natural. Local tools, MCP clients and the metrics recorder are functions on a world
-- `W` that may change it, return a value or raise. The order in which a database lists rows is a
-- parameter. A loop over steps is structural recursion on the steps, a retry loop on the retries
-- that are left, so no fuel is used. LangGraph, which runs the kernel's state graph, is a relation
-- on runs that follow the graph's edges; the NL2SQL pipeline, the orchestrator and the planner of
-- the kernel are functions on its state that may raise. Each SQL statement is atomic; the modules
-- History run the statements of any number of clients in any order.
--
-- Not modelled: trace events, latencies and log texts, which no code reads back; the handlers
-- around `gateway.call`, which never raises; the HTTP interface, tokens,
-- the NL2SQL pipeline, the other guardrails, evaluation and the PostgreSQL stores.
pub mod Prelude
pub mod PyText
pub mod Raise
pub mod Json
pub mod Keyword
pub mod ApprovalStore
pub mod CheckpointStore
pub mod TaskStore
pub mod Gateway
pub mod Policy
pub mod Resolve
pub mod Resume
pub mod Context
pub mod GraphRun
pub mod Hooks
pub mod Memory
pub mod Planner
pub mod Pipeline
pub mod RequestGuards
pub mod Access
pub mod Kernel
pub mod MultiAgent
pub mod Budget
pub mod Injection
pub mod Pii
pub mod SqlGuard
pub mod Tests
