-- ===== src/Kernel/Modes.antt =====
-- The modes of app/agent/graph/kernel.py: `run`, `run_with_options` and the pipelines it calls.
--
-- `graph` is the invocation of the compiled state graph, `none` where LangGraph is not there. The
-- pipelines' dicts have the keys that the kernel's trace events read.
use project_b_multi_agent.ApprovalStore.{payload_of}
use project_b_multi_agent.GraphRun.{shown}
use project_b_multi_agent.Json.{
  Fields, Value, arr, dict, end, flag, get, is_set, join_text, obj, put, text,
}
use project_b_multi_agent.Kernel.{
  Kernel, KernelState, TaskRun, TaskStatus, Work, completed, failed, is_waiting, running,
  waiting_approval,
}
use project_b_multi_agent.Kernel.Stages.{read_task, run_sequential, run_stage_hooks, set_status}
use project_b_multi_agent.Memory.{ShortTermMemory, add_message, take_text}
use project_b_multi_agent.Policy.{check}
use project_b_multi_agent.Prelude.{
  Bool, List, Option, String, [], false, if◌then◌else◌, none, some, true, ℕ, ◌+◌, ◌==◌, ◌∷◌,
}
use project_b_multi_agent.Raise.{Attempt, done, failed_with, give, recover, ◌>>=◌, ◌>>◌}
use project_b_multi_agent.Resume.{or_text}
use project_b_multi_agent.Resume.Steps.Report.{items_of}

-- `str(d.get("answer", ""))[:200]`
abbrev pub answer_text : (Value → String) → Option Value → String
answer_text str_of none = ""
answer_text str_of (some v) = take_text 200 (shown str_of v)

abbrev pub answer_of_result : (Value → String) → Option Fields → String
answer_of_result str_of none = ""
answer_of_result str_of (some d) = answer_text str_of (get "answer" d)

-- `session_id or task.task_id`
abbrev pub session_of : Option String → String → String
session_of none task_id = task_id
session_of (some s) task_id = or_text s task_id

-- the dict that stands for a pipeline's exception
abbrev pub exception_result : String → String → String → String → Fields
exception_result mode key prefix e =
    dict (
      ("mode", text mode)
      ∷ ("success", flag false)
      ∷ (key, text (join_text (prefix ∷ e ∷ [])))
      ∷ [])

-- `task.result or {}`, with the reflection put in
abbrev pub reflected : Option Fields → Option Fields → Option Fields
reflected result none = result
reflected result (some reflection) = some (put "reflection" (obj reflection) (payload_of result))

abbrev pub remembered :
    String → String → String → ℕ → Option ShortTermMemory → Option ShortTermMemory
remembered session_id role content now none = none
remembered session_id role content now (some m) =
    some (add_message session_id role content end now m)

module _ {W : Type 0} (env : Kernel W) where
  abbrev pub set_result : Option Fields → Work W (Unit {0})
  set_result result k = (done tt, record k { task = record k.task { result = result } })

  abbrev pub set_error : String → Work W (Unit {0})
  set_error e k = (done tt, record k { task = record k.task { error = some e } })

  -- `task.updated_at = self._now()`
  abbrev pub touch : Work W (Unit {0})
  touch k = (
    done tt,
    record k { task = record k.task { updated_at = env.now k.reads }; reads = k.reads + 1 },
  )

  -- `_memory_add`
  unfoldable pub memory_add : String → String → String → Work W (Unit {0})
  memory_add session_id role content k = (
    done tt,
    record k {
      memory = remembered session_id role content (env.now k.reads) k.memory;
      reads = k.reads + 1;
    },
  )

  -- `_run_self_check`
  abbrev pub self_checked : Option (Fields → Option Fields) → Option Fields → Option Fields
  self_checked none result = result
  self_checked (some check) result = reflected result (check (payload_of result))

  unfoldable pub run_self_check : Work W (Unit {0})
  run_self_check k = (
    done tt,
    record k { task = record k.task { result = self_checked env.self_check k.task.result } },
  )

  abbrev pub chain_of : Option (Work W Fields) → Work W Fields
  chain_of none = run_sequential env
  chain_of (some invoke) = invoke

  abbrev pub task_payload : TaskRun → List (String × Value) → Fields
  task_payload task more = dict (("task_id", text task.task_id) ∷ more)

  -- the `try` block of `run` after the chain; the answer says whether it returns at once
  abbrev pub finish_run : String → Fields → Work W Bool
  finish_run session_id result k =
      if is_waiting k.task.status
      then (do set_result (some result); touch; give true) k
      else (do
        set_result (some result)
        task ← read_task env
        run_stage_hooks env "after_task" (task_payload task (("result", obj result) ∷ []))
        set_status env completed
        memory_add session_id "assistant" (answer_of_result env.str_of (some result))
        give false)
          k

  unfoldable pub try_run : Option (Work W Fields) → String → Work W Bool
  unfolding memory_add
  try_run graph session_id = do
    task ← read_task env
    run_stage_hooks env "before_task" (task_payload task (("query", text task.query) ∷ []))
    result ← chain_of graph
    finish_run session_id result

  abbrev pub fail_run : String → Work W Bool
  fail_run e = do
    set_status env failed
    set_error e
    task ← read_task env
    run_stage_hooks env "on_error" (task_payload task (("error", text e) ∷ []))
    give false

  abbrev pub close_run : Bool → Work W (Unit {0})
  close_run true = give tt
  close_run false = do run_self_check; touch

  unfoldable pub run : Option (Work W Fields) → Option String → Work W (Unit {0})
  unfolding memory_add try_run run_self_check
  run graph session_id = do
    set_status env running
    touch
    task ← read_task env
    let sid = session_of session_id task.task_id
    memory_add sid "user" task.query
    early ← λ k. recover (try_run graph sid k) fail_run
    close_run early

  -- a pipeline of its own: an exception still completes the task, with a dict that says so
  abbrev pub complete_with : Option Fields → Work W (Unit {0})
  complete_with result = do set_result result; set_status env completed

  abbrev pub guarded :
      Work W Fields → (Fields → Work W (Unit {0})) → (String → Fields) → Work W (Unit {0})
  guarded pipeline follow_up on_error k =
      recover ((pipeline >>= follow_up) k) λ e. complete_with (some (on_error e))

  unfoldable pub run_nl2sql : Work W (Unit {0})
  run_nl2sql = do
    set_status env running
    touch
    task ← read_task env
    guarded (env.nl2sql_pipeline task.query) (λ result. complete_with (some result))
        (exception_result "nl2sql" "answer" "NL2SQL 执行异常: ")
    touch

  abbrev pub finish_multitool : Fields → Work W (Unit {0})
  finish_multitool result =
      if is_set "requires_approval" result
      then (do set_result (some result); set_status env waiting_approval)
      else complete_with (some result)

  unfoldable pub run_multitool : Work W (Unit {0})
  run_multitool = do
    set_status env running
    touch
    task ← read_task env
    guarded (env.multitool_pipeline task.query task.task_id) finish_multitool
        (exception_result "multitool" "answer" "多工具执行异常: ")
    touch

  unfoldable pub run_multi_agent : Work W (Unit {0})
  run_multi_agent = do
    set_status env running
    touch
    task ← read_task env
    guarded (env.multi_agent_orchestrator task.query task.task_id)
        (λ result. complete_with (some result))
        (exception_result "multi_agent" "final_answer" "多 Agent 执行异常: ")
    touch

  abbrev pub auto_dict : String → List String → Fields → Fields
  auto_dict executed_mode fallback_chain d =
      put "fallback_chain" (arr (items_of fallback_chain))
        (put "executed_mode" (text executed_mode) (put "requested_mode" (text "auto") d))

  abbrev pub fallback_dict : String → List String → String → Fields → Fields
  fallback_dict executed_mode fallback_chain reason d =
      put "auto_fallback_reason" (text reason)
        (put "auto_fallback" (flag true) (auto_dict executed_mode fallback_chain d))

  -- the last resort, whose result may be missing
  abbrev pub fall_back : Option (Work W Fields) → List String → String → Work W (Unit {0})
  fall_back graph fallback_chain reason = do
    run graph none
    task ← read_task env
    set_result (some (fallback_dict "keyword" fallback_chain reason (payload_of task.result)))

  abbrev pub after_multitool :
      Option (Work W Fields) → Attempt Fields × KernelState W → Attempt (Unit {0}) × KernelState W
  after_multitool graph (failed_with e, k) =
      fall_back graph ("nl2sql" ∷ "multitool" ∷ "keyword" ∷ []) (join_text ("nl2sql 异常: " ∷ e ∷ []))
        k
  after_multitool graph (done result, k) =
      if is_set "success" result
      then complete_with
          (some (
            fallback_dict "multitool" ("nl2sql" ∷ "multitool" ∷ []) "nl2sql 失败，回退到 multitool 模式"
              result))
          k
      else fall_back graph ("nl2sql" ∷ "multitool" ∷ "keyword" ∷ [])
          "nl2sql 和 multitool 均失败，回退到 keyword 模式" k

  abbrev pub after_nl2sql :
      Option (Work W Fields)
      → TaskRun
      → Attempt Fields × KernelState W
      → Attempt (Unit {0}) × KernelState W
  after_nl2sql graph task (failed_with e, k) =
      fall_back graph ("nl2sql" ∷ "keyword" ∷ []) (join_text ("nl2sql 异常: " ∷ e ∷ [])) k
  after_nl2sql graph task (done result, k) =
      if is_set "success" result
      then complete_with (some (auto_dict "nl2sql" ("nl2sql" ∷ []) result)) k
      else after_multitool graph (env.multitool_pipeline task.query task.task_id k)

  unfoldable pub run_auto : Option (Work W Fields) → Work W (Unit {0})
  run_auto graph = do
    set_status env running
    touch
    task ← read_task env
    λ k. after_nl2sql graph task (env.nl2sql_pipeline task.query k)
    touch

  -- the status that the answer of the graph runtime gives the task
  abbrev pub runtime_status : Fields → TaskStatus
  runtime_status result =
      if is_set "requires_approval" result
      then if is_set "approval_id" result then waiting_approval else failed
      else if is_set "success" result
      then completed
      else failed

  abbrev pub remember_answer : String → Work W (Unit {0})
  remember_answer session_id = do
    task ← read_task env
    memory_add session_id "assistant" (answer_of_result env.str_of task.result)
    run_self_check

  abbrev pub run_on_runtime : (String → String → Work W Fields) → String → Work W (Unit {0})
  run_on_runtime adapter session_id = do
    task ← read_task env
    result ← adapter task.task_id task.query
    set_result (some result)
    set_status env (runtime_status result)
    touch
    remember_answer session_id

  abbrev pub run_keyword_mode :
      Option (String → String → Work W Fields)
      → Option (Work W Fields)
      → Option String
      → String
      → Work W (Unit {0})
  run_keyword_mode none graph session_id sid = run graph session_id
  run_keyword_mode (some adapter) graph session_id sid = run_on_runtime adapter sid

  unfoldable pub run_with_options :
      Option (Work W Fields) → String → Option String → Work W (Unit {0})
  unfolding memory_add run_nl2sql run_multitool run_multi_agent run_auto run_self_check
  run_with_options graph mode session_id = do
    task ← read_task env
    let sid = session_of session_id task.task_id
    memory_add sid "user" task.query
    (if mode == "keyword"
        then run_keyword_mode env.graph_runtime graph session_id sid
        else if mode == "nl2sql"
        then run_nl2sql >> remember_answer sid
        else if mode == "multitool"
        then run_multitool >> remember_answer sid
        else if mode == "multi_agent"
        then run_multi_agent >> remember_answer sid
        else if mode == "auto"
        then run_auto graph >> remember_answer sid
        else run graph session_id)
