-- ===== src/Resume/Service/Others.antt =====
-- A resume changes no other stored request (app/services/approval_resume.py,
-- app/agent/graph/resume_adapter.py).
use project_b_multi_agent.ApprovalStore.{
  Approval, Approvals, get_approval, is_approved, payload_of, update_payload,
}
use project_b_multi_agent.ApprovalStore.Decide.{update_payload_lem}
use project_b_multi_agent.CheckpointStore.{Checkpoint, Checkpoints, claim_for_resume}
use project_b_multi_agent.Json.{Fields, get_text, is_set}
use project_b_multi_agent.Policy.{check_payload_integrity}
use project_b_multi_agent.Prelude.{
  Option, Option-cases, String, arith, false, if_both, if_no, inl, inr, none, not, some, ◌==◌, ◌∙◌,
  ◌≡◌,
}
use project_b_multi_agent.Resume.{Clock, State, add_audit}
use project_b_multi_agent.Resume.Graph.{
  after_claim, answer_or, early_answer, resume_graph, run_claimed,
}
use project_b_multi_agent.Resume.Service.{
  by_mode, plan_steps, resume, resume_entry, settle, settled, started, with_approval,
}
use project_b_multi_agent.Resume.Service.Keeps.{Holds, resume_keyword-Holds, resume_multitool-Holds}
use project_b_multi_agent.Resume.Steps.{Env}

update_payload-other :
    (a j : String) (u : Fields) (rows : Approvals)
    → (a == j) ≡ false
    → get_approval j (update_payload a u rows).0 ≡ get_approval j rows
update_payload-other a j u rows other = elim (Option-cases (get_approval a rows)) [
  | inl h ↦ unfold update_payload in ground arith
  | inr (r, h) ↦ (update_payload_lem a u rows h).1 j ∙ if_no (a == j) _ _ other
]

module _ {W : Type 0} (env : Env W) (clock : Clock) (a j : String) (q : Approval)
    (other : (a == j) ≡ false) where
  settle-Holds : (result : Fields) (s : State W) → Holds j q s → Holds j q (settle a result s)
  unfolding settle
  settle-Holds result s h = update_payload-other a j _ s.approvals other ∙ h

  settled-Holds : (o : State W × Option Fields) → Holds j q o.0 → Holds j q (settled a o).0
  settled-Holds (s, none) h = h
  settled-Holds (s, some result) h = settle-Holds result s h

  by_mode-Holds :
      (r : Approval) (payload : Fields) (s : State W)
      → Holds j q s
      → Holds j q (by_mode env clock a r payload s).0
  by_mode-Holds r payload s h =
      if_both {A = State W × Option Fields} (λ o. Holds j q o.0)
        (get_text "mode" payload == "keyword")
        (resume_keyword-Holds env clock.updated_at j q a r.task_id payload s h)
        (if_both {A = State W × Option Fields} (λ o. Holds j q o.0)
          (get_text "mode" payload == "multitool")
          (resume_multitool-Holds env clock.updated_at j q a r.task_id payload s h) h)

  run_claimed-Holds :
      (r : Approval) (k : String) (c : Checkpoint) (s : State W)
      → Holds j q s
      → Holds j q (run_claimed env.gateway clock a r k c s).0
  unfolding run_claimed
  run_claimed-Holds r k c s h = update_payload-other a j _ s.approvals other ∙ h

  after_claim-Holds :
      (r : Approval) (k : String) (claim : Checkpoints × Option Checkpoint) (s : State W)
      → Holds j q s
      → Holds j q (after_claim env.gateway clock a r k claim s).0
  after_claim-Holds r k (rows, none) s h = h
  after_claim-Holds r k (rows, some c) s h =
      run_claimed-Holds r k c (record s { checkpoints = rows }) h

  answer_or-Holds :
      (early : Option Fields) (s : State W) (o : State W × Fields)
      → Holds j q s
      → Holds j q o.0
      → Holds j q (answer_or env.gateway early s o).0
  answer_or-Holds none s o h after = after
  answer_or-Holds (some d) s o h after = h

  resume_graph-Holds :
      (r : Approval) (s : State W)
      → Holds j q s
      → Holds j q (resume_graph env.gateway clock a r s).0
  unfolding resume_graph
  resume_graph-Holds r s h =
      let k = get_text "checkpoint_id" (payload_of r.payload) in
      let claim = claim_for_resume k a clock.claimed_at s.checkpoints in
      answer_or-Holds (early_answer a (payload_of r.payload)) s
        (after_claim env.gateway clock a r k claim s) h (after_claim-Holds r k claim s h)

  started-Holds :
      (r : Approval) (payload : Fields) (s : State W)
      → Holds j q s
      → Holds j q (started env clock a r payload s).0
  started-Holds r payload s h =
      if_both {A = State W × Option Fields} (λ o. Holds j q o.0)
        (get_text "mode" payload == "graph_keyword")
        (if_both {A = State W × Option Fields} (λ o. Holds j q o.0)
          (get_text "checkpoint_id" payload == "") h (resume_graph-Holds r s h))
        (if_both {A = State W × Option Fields} (λ o. Holds j q o.0)
          (not
            (check_payload_integrity env.str_of payload r.tool_name (plan_steps payload)).allowed)
          h (settled-Holds (by_mode env clock a r payload s) (by_mode-Holds r payload s h)))

  with_approval-Holds :
      (found : Option Approval) (s : State W)
      → Holds j q s
      → Holds j q (with_approval env clock a found s).0
  with_approval-Holds none s h = h
  with_approval-Holds (some r) s h =
      if_both {A = State W × Option Fields} (λ o. Holds j q o.0) (not (is_approved r.status)) h
        (if_both {A = State W × Option Fields} (λ o. Holds j q o.0)
          (is_set "resumed" (payload_of r.payload)) h
          (started-Holds r (payload_of r.payload)
            (add_audit (resume_entry "approval_resume_started" r.task_id a "success") s) h))

  -- A resume of one request leaves every other stored request as it is, in every mode and on
  -- every branch, also where it stores a new request or ends in an exception.
  pub resume-others :
      (s : State W)
      → get_approval j s.approvals ≡ some q
      → get_approval j (resume env clock a s).0.approvals ≡ some q
  unfolding resume
  resume-others s h = with_approval-Holds (get_approval a s.approvals) s h
