-- ===== src/ApprovalStore/History.antt =====
-- The approvals table under the SQL statements of any number of clients, in any order: each
-- statement is atomic, and what a client read before it may be out of date.
use project_b_multi_agent.ApprovalStore.{
  Approval, Approvals, Request, approval_key, create_approval, decide_update, get_approval,
  insert_row, is_pending, new_approval, write_payload,
}
use project_b_multi_agent.ApprovalStore.Decide.{
  get_approval-decide_update, get_approval-write_payload, with_payload,
}
use project_b_multi_agent.Json.{Fields}
use project_b_multi_agent.Prelude.{
  Bool, List, Option, String, [], arith, eq_iff, false, if◌then◌else◌, none, refl, some, ℕ, ◌==◌,
  ◌∷◌, ◌≡◌,
}
use project_b_multi_agent.Prelude.Table.{
  IsKeyed, append-IsKeyed, select, select-append, update_where-IsKeyed,
}

-- A statement with its bound values. `pay` writes a payload that its client computed from an
-- earlier read.
pub data Statement : Type 0 where
  create : String → ℕ → Request → Statement
  decide : String → Bool → ℕ → String → String → Statement
  pay : String → Fields → Statement

abbrev or_unchanged : Option Approvals → Approvals → Approvals
or_unchanged none rows = rows
or_unchanged (some rows') rows = rows'

-- An INSERT that fails leaves the table as it is.
unfoldable pub execute : Statement → Approvals → Approvals
execute (create k now q) rows = or_unchanged (create_approval k now q rows) rows
execute (decide k approve now by reason) rows = decide_update k approve now by reason rows
execute (pay k d) rows = write_payload k d rows

unfoldable pub execute_all : List Statement → Approvals → Approvals
execute_all [] rows = rows
execute_all (s ∷ ss) rows = execute_all ss (execute s rows)

-- The two rows carry the same request and the same decision.
pub record SameDecision (a b : Approval) : Type 0 where
  pub task_id : a.task_id ≡ b.task_id
  pub tool_name : a.tool_name ≡ b.tool_name
  pub risk_level : a.risk_level ≡ b.risk_level
  pub status : a.status ≡ b.status
  pub decided_at : a.decided_at ≡ b.decided_at
  pub decided_by : a.decided_by ≡ b.decided_by
  pub decision_reason : a.decision_reason ≡ b.decision_reason

execute-create :
    (j : String) (now : ℕ) (q : Request) (k : String) (rows : Approvals) {r : Approval}
    → get_approval k rows ≡ some r
    → get_approval k (execute (create j now q) rows) ≡ some r
unfolding execute create_approval get_approval
execute-create j now q k rows h =
    ground (arith, eq_iff j k, select-append approval_key k rows (new_approval j now q))

execute-decided :
    (s : Statement) (k : String) (rows : Approvals) {r : Approval}
    → get_approval k rows ≡ some r
    → is_pending r.status ≡ false
    → (r' : Approval) × (get_approval k (execute s rows) ≡ some r') × SameDecision r r'
unfolding execute
execute-decided (create j now q) k rows {r} h p = (r, execute-create j now q k rows h, ground arith)
execute-decided (decide j approve now by reason) k rows {r} h p =
    (r, ground (arith, get_approval-decide_update j approve now by reason rows k), ground arith)
execute-decided (pay j d) k rows {r} h p = (
  if j == k then with_payload d r else r,
  ground (arith, get_approval-write_payload j d rows k),
  ground arith,
)

SameDecision-trans : {a b c : Approval} → SameDecision a b → SameDecision b c → SameDecision a c
SameDecision-trans h k = ground arith

-- A decision is final: once a row is not pending, no statements of any clients change its
-- decision, its task, its tool or its risk, and the row stays.
pub decision_final :
    (ss : List Statement) (k : String) (rows : Approvals) {r : Approval}
    → get_approval k rows ≡ some r
    → is_pending r.status ≡ false
    → (r' : Approval) × (get_approval k (execute_all ss rows) ≡ some r') × SameDecision r r'
unfolding execute_all
decision_final [] k rows {r} h p = (r, h, ground arith)
decision_final (s ∷ ss) k rows {r} h p =
    let (r₁, h₁, same₁) = execute-decided s k rows h p in
    let (r₂, h₂, same₂) = decision_final ss k (execute s rows) h₁ (ground arith) in
    (r₂, h₂, SameDecision-trans same₁ same₂)

-- The INSERT, by what is found under the id.
insert-IsKeyed :
    (r : Approval) (rows : Approvals) (found : Option Approval)
    → select approval_key r.approval_id rows ≡ found
    → IsKeyed approval_key rows
    → IsKeyed approval_key (or_unchanged (insert_row found r rows) rows)
insert-IsKeyed r rows none free h = append-IsKeyed approval_key rows r h free
insert-IsKeyed r rows (some _) taken h = h

execute-IsKeyed :
    (s : Statement) (rows : Approvals)
    → IsKeyed approval_key rows
    → IsKeyed approval_key (execute s rows)
unfolding execute create_approval decide_update write_payload get_approval
execute-IsKeyed (create k now q) rows h =
    insert-IsKeyed (new_approval k now q) rows (select approval_key k rows) refl h
execute-IsKeyed (decide k approve now by reason) rows h =
    update_where-IsKeyed approval_key _ _ (λ r. refl) rows h
execute-IsKeyed (pay k d) rows h = update_where-IsKeyed approval_key _ _ (λ r. refl) rows h

-- If no two rows share an id at the start, none do after any statements of any clients.
pub execute_all-IsKeyed :
    (ss : List Statement) (rows : Approvals)
    → IsKeyed approval_key rows
    → IsKeyed approval_key (execute_all ss rows)
unfolding execute_all
execute_all-IsKeyed [] rows h = h
execute_all-IsKeyed (s ∷ ss) rows h =
    execute_all-IsKeyed ss (execute s rows) (execute-IsKeyed s rows h)
