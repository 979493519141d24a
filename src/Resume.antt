-- ===== src/Resume.antt =====
-- The state that a resume of an approved action works on (app/services/approval_resume.py,
-- app/agent/graph/resume_adapter.py): the three stores, the audit trail and the world outside.
-- Trace events, which no code reads back, are left out.
pub mod Graph
pub mod Steps
pub mod Multitool
pub mod Service
pub use project_b_multi_agent.Json.{or_null}
use project_b_multi_agent.ApprovalStore.{Approvals}
use project_b_multi_agent.CheckpointStore.{Checkpoints}
use project_b_multi_agent.Json.{Fields, Value, end, field, null}
use project_b_multi_agent.Prelude.{
  List, Option, String, [], if◌then◌else◌, none, some, ℕ, ◌++◌, ◌==◌, ◌∷◌,
}
use project_b_multi_agent.TaskStore.{Tasks}

-- what is handed to the audit recorder, of the parts that the resume sets
pub record AuditEntry : Type 0 where
  pub event_type : String
  pub task_id : String
  pub approval_id : String
  pub action : String
  pub outcome : String

module _ (W : Type 0) where
  pub record State : Type 0 where
    pub approvals : Approvals
    pub tasks : Tasks
    pub checkpoints : Checkpoints
    pub audit : List AuditEntry
    pub world : W

-- the values of `datetime.now()` at the writes of a resume
pub record Clock : Type 0 where
  pub claimed_at : ℕ
  pub updated_at : ℕ
  pub resumed_at : ℕ

module _ {W : Type 0} where
  abbrev pub add_audit : AuditEntry → State W → State W
  add_audit e s = record s { audit = s.audit ++ e ∷ [] }

-- `a or b` of dicts and of texts
abbrev pub or_fields : Fields → Fields → Fields
or_fields end e = e
or_fields (field k v d) e = field k v d

abbrev pub or_text : String → String → String
or_text a b = if a == "" then b else a
