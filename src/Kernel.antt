-- ===== src/Kernel.antt =====
-- app/agent/graph/kernel.py: the agent's kernel, which runs a task in one of its modes.
--
-- A run works on the task, the approvals, the session memory and the world outside, `W`. The
-- planner, the other pipelines and the self-check are arguments; they may change all of it and
-- raise. Trace events and task metrics, which no code of the kernel reads, are left out; `uuid4`
-- and the clock are read off a supply by the number of reads so far.
pub mod Stages
pub mod Graph
pub mod Refines
pub mod Modes
pub mod Auto
use project_b_multi_agent.ApprovalStore.{Approvals}
use project_b_multi_agent.Gateway.{Gateway}
use project_b_multi_agent.Hooks.{HookPipeline}
use project_b_multi_agent.Json.{Fields, Value}
use project_b_multi_agent.Memory.{ShortTermMemory}
use project_b_multi_agent.Policy.{Lookup}
use project_b_multi_agent.Prelude.{Bool, Option, String, false, true, ℕ}
use project_b_multi_agent.Raise.{Action}

-- app/models/schemas.py
pub data TaskStatus : Type 0 where
  created pending running waiting_approval completed failed cancelled : TaskStatus

abbrev pub is_waiting : TaskStatus → Bool
is_waiting waiting_approval = true
is_waiting _ = false

pub record TaskRun : Type 0 where
  pub task_id : String
  pub query : String
  pub status : TaskStatus
  pub result : Option Fields
  pub error : Option String
  pub updated_at : ℕ

module _ (W : Type 0) where
  -- what a run reads and writes
  pub record KernelState : Type 0 where
    pub task : TaskRun
    pub approvals : Approvals
    pub memory : Option ShortTermMemory
    pub reads : ℕ
    pub world : W

  abbrev pub Work : Type 0 → Type 0
  Work A = Action KernelState A

  pub record Kernel : Type 0 where
    pub gateway : Gateway W
    pub policy : Option (Option Lookup)
    pub has_approval_store : Bool
    pub hooks : HookPipeline W
    -- the planner that `settings.planner_mode` selects, and its labels
    pub planner_plan : String → Work Fields
    pub planner_label : String → String
    pub nl2sql_pipeline : String → Work Fields
    pub multitool_pipeline : String → String → Work Fields
    pub multi_agent_orchestrator : String → String → Work Fields
    -- `run_keyword` of the graph runtime, if that is enabled
    pub graph_runtime : Option (String → String → Work Fields)
    pub self_check : Option (Fields → Option Fields)
    pub str_of : Value → String
    pub uuid : ℕ → String
    pub now : ℕ → ℕ
    pub integrity_error : String
