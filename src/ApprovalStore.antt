-- ===== src/ApprovalStore.antt =====
-- app/storage/approval_store.py: the approvals table and its operations.
--
-- The table is a list of rows in the order of insertion, and each SQL statement is a function on
-- it. `uuid4` and `datetime.now()` are arguments. The columns of ISO times are numbers that order
-- as the texts do, and `payload_json` holds the dict that it decodes to: `json.loads` undoes
-- `json.dumps` on JSON values. ORDER BY is a parameter of `list_approvals`.
pub mod Decide
pub mod History
pub mod Listing
use project_b_multi_agent.Json.{Fields, end, join_text, merge}
use project_b_multi_agent.Prelude.{
  Bool, List, Option, String, [], false, if◌then◌else◌, leb, ltb, none, some, take, true, ℕ, ◌&&◌,
  ◌++◌, ◌==◌, ◌∷◌,
}
use project_b_multi_agent.Prelude.Table.{select, update_where}

-- app/models/schemas.py
pub data RiskLevel : Type 0 where
  low medium high : RiskLevel

pub data ApprovalStatus : Type 0 where
  pending approved rejected : ApprovalStatus

abbrev pub status_text : ApprovalStatus → String
status_text pending = "pending"
status_text approved = "approved"
status_text rejected = "rejected"

abbrev pub is_pending : ApprovalStatus → Bool
is_pending pending = true
is_pending _ = false

abbrev pub is_approved : ApprovalStatus → Bool
is_approved approved = true
is_approved _ = false

pub record Approval : Type 0 where
  pub approval_id : String
  pub task_id : String
  pub tool_name : String
  pub action : String
  pub risk_level : RiskLevel
  pub impact_scope : String
  pub agent_reason : String
  pub status : ApprovalStatus
  pub requested_at : ℕ
  pub decided_at : Option ℕ
  pub decided_by : Option String
  pub decision_reason : Option String
  pub payload : Option Fields

-- what `create_approval` is called with
pub record Request : Type 0 where
  pub task_id : String
  pub tool_name : String
  pub action : String
  pub risk_level : RiskLevel
  pub impact_scope : String
  pub agent_reason : String
  pub payload : Option Fields

-- `json.dumps(payload) if payload else None`
abbrev pub stored_payload : Option Fields → Option Fields
stored_payload none = none
stored_payload (some end) = none
stored_payload (some d) = some d

abbrev pub new_approval : String → ℕ → Request → Approval
new_approval approval_id now q = record {
  approval_id = approval_id;
  task_id = q.task_id;
  tool_name = q.tool_name;
  action = q.action;
  risk_level = q.risk_level;
  impact_scope = q.impact_scope;
  agent_reason = q.agent_reason;
  status = pending;
  requested_at = now;
  decided_at = none;
  decided_by = none;
  decision_reason = none;
  payload = stored_payload q.payload;
}

abbrev pub Approvals : Type 0
Approvals = List Approval

abbrev pub approval_key : Approval → String
approval_key r = r.approval_id

unfoldable pub get_approval : String → Approvals → Option Approval
get_approval approval_id rows = select approval_key approval_id rows

-- INSERT; a second row with the key is an `IntegrityError`, which nothing catches
abbrev pub insert_row : Option Approval → Approval → Approvals → Option Approvals
insert_row none r rows = some (rows ++ r ∷ [])
insert_row (some _) r rows = none

unfoldable pub create_approval : String → ℕ → Request → Approvals → Option Approvals
create_approval approval_id now q rows =
    insert_row (get_approval approval_id rows) (new_approval approval_id now q) rows

-- `limit` is an `int`: `negative` stands for every value below 0
pub data Limit : Type 0 where
  negative : Limit
  nat : ℕ → Limit

abbrev pub clamp_limit : Limit → ℕ
clamp_limit negative = 20
clamp_limit (nat n) = if leb n 0 then 20 else if ltb 100 n then 100 else n

abbrev pub same_status : ApprovalStatus → ApprovalStatus → Bool
same_status a b = status_text a == status_text b

abbrev pub filter_status : Option ApprovalStatus → Approvals → Approvals
filter_status none rows = rows
filter_status (some s) [] = []
filter_status (some s) (r ∷ rows) =
    let rest = filter_status (some s) rows in if same_status r.status s then r ∷ rest else rest

-- `newest_first` is the database's ORDER BY requested_at DESC
unfoldable pub list_approvals :
    (Approvals → Approvals) → Option ApprovalStatus → Limit → Approvals → Approvals
list_approvals newest_first status limit rows =
    take (clamp_limit limit) (newest_first (filter_status status rows))

-- UPDATE … WHERE approval_id = ? AND status = 'pending'
unfoldable pub decide_update : String → Bool → ℕ → String → String → Approvals → Approvals
decide_update approval_id approve now decided_by reason =
    update_where (λ r. r.approval_id == approval_id && is_pending r.status)
      λ r. record r {
        status = if approve then approved else rejected;
        decided_at = some now;
        decided_by = some decided_by;
        decision_reason = some reason;
      }

-- the dict that `decide_approval` returns: a row, and the two keys that a second decision adds
pub record Decision : Type 0 where
  pub row : Approval
  pub already_decided : Bool
  pub decision_error : Option String

unfoldable pub decide_approval :
    String → Bool → ℕ → String → String → Approvals → Approvals × Option Decision
decide_approval approval_id approve now decided_by reason rows =
    elim (get_approval approval_id rows) [
      | none ↦ (rows, none)
      | some current ↦
          if is_pending current.status
          then (let rows' = decide_update approval_id approve now decided_by reason rows in
              (
                rows',
                elim (get_approval approval_id rows') [
                  | none ↦ none
                  | some row ↦
                      some (record { row = row; already_decided = false; decision_error = none })
                ],
              ))
          else (
            rows,
            some (record {
              row = current;
              already_decided = true;
              decision_error = some (join_text ("审批已决策，当前状态为 " ∷ status_text current.status ∷ []));
            }),
          )
    ]

-- UPDATE approvals SET payload_json = ? WHERE approval_id = ?
unfoldable pub write_payload : String → Fields → Approvals → Approvals
write_payload approval_id payload =
    update_where (λ r. r.approval_id == approval_id) λ r. record r { payload = some payload }

-- `current.get("payload") or {}`
abbrev pub payload_of : Option Fields → Fields
payload_of none = end
payload_of (some d) = d

unfoldable pub update_payload : String → Fields → Approvals → Approvals × Option Approval
update_payload approval_id payload_update rows = elim (get_approval approval_id rows) [
  | none ↦ (rows, none)
  | some current ↦
      let rows' =
        write_payload approval_id (merge (payload_of current.payload) payload_update) rows in
      (rows', get_approval approval_id rows')
]
