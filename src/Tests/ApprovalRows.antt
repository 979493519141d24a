-- ===== src/Tests/ApprovalRows.antt =====
-- The theorems on approvals and tasks, at small tables.
use project_b_multi_agent.ApprovalStore.{
  Approval, Approvals, approved, create_approval, decide_approval, get_approval, list_approvals,
  nat, new_approval, pending,
}
use project_b_multi_agent.ApprovalStore.Decide.{
  IsNewRow, decide_approval-pending, decided, get_approval-create_approval,
}
use project_b_multi_agent.ApprovalStore.History.{
  SameDecision, Statement, decide, decision_final, execute_all, pay,
}
use project_b_multi_agent.ApprovalStore.Listing.{HasStatus, list_approvals_sound}
use project_b_multi_agent.Json.{end}
use project_b_multi_agent.Prelude.{
  All, List, String, [], false, if◌then◌else◌, length, none, refl, some, true, ◌++◌, ◌==◌, ◌∷◌, ◌≡◌,
  ◌≤◌,
}
use project_b_multi_agent.Prelude.Table.{select}
use project_b_multi_agent.Tests.{approval_at, keyword_payload, refund_request, test_approvals}

abbrev decisions : List Statement
decisions = decide "a2" false 20 "eve" "no" ∷ pay "a2" end ∷ []

decision_final_example :
    (r' : Approval) × (get_approval "a2" (execute_all decisions test_approvals) ≡ some r')
    × SameDecision (approval_at "a2" approved keyword_payload) r'
unfolding get_approval select
decision_final_example = decision_final decisions "a2" test_approvals refl refl

decide_approval-pending_example :
    let (rows', answer) = decide_approval "a3" true 9 "bob" "ok" test_approvals in
    let r' = decided true 9 "bob" "ok" (approval_at "a3" pending keyword_payload) in
    (answer ≡ some (record { row = r'; already_decided = false; decision_error = none }))
    × ((j : String)
        → get_approval j rows' ≡ (if "a3" == j then some r' else get_approval j test_approvals))
unfolding get_approval select
decide_approval-pending_example =
    decide_approval-pending "a3" true 9 "bob" "ok" test_approvals refl refl

abbrev created_rows : Approvals
created_rows = test_approvals ++ new_approval "a4" 7 refund_request ∷ []

get_approval-create_approval_example :
    ((r : Approval) × (get_approval "a4" created_rows ≡ some r) × IsNewRow "a4" 7 refund_request r)
    × ((j : String)
        → get_approval j created_rows
          ≡ (if "a4" == j then get_approval "a4" created_rows else get_approval j test_approvals))
unfolding create_approval get_approval select
get_approval-create_approval_example =
    get_approval-create_approval "a4" 7 refund_request test_approvals refl

list_approvals_sound_example :
    All
      (λ r. (r.task_id ≡ "t1") × HasStatus (some pending) r)
      (list_approvals (λ rows. rows) (some pending) (nat 1000) test_approvals)
    × (length (list_approvals (λ rows. rows) (some pending) (nat 1000) test_approvals) ≤ 100)
list_approvals_sound_example =
    list_approvals_sound (λ rows. rows) (some pending) (nat 1000) test_approvals
      (λ r. r.task_id ≡ "t1") (record { keeps = λ P rows h. h; same_length = λ rows. refl })
      (refl, (refl, (refl, tt)))
