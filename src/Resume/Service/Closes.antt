-- ===== src/Resume/Service/Closes.antt =====
-- An answer that consumes the approval leaves the stored request closed
-- (app/services/approval_resume.py).
use project_b_multi_agent.ApprovalStore.{
  Approval, Approvals, get_approval, is_approved, payload_of, update_payload,
}
use project_b_multi_agent.ApprovalStore.Decide.{update_payload_lem}
use project_b_multi_agent.CheckpointStore.{
  Checkpoint, CheckpointStatus, Checkpoints, claim_for_resume, get_checkpoint,
}
use project_b_multi_agent.Json.{
  Fields, Value, end, field, flag, get, get_text, is_set, merge, truthy,
}
use project_b_multi_agent.Json.Laws.{get-merge}
use project_b_multi_agent.Policy.{OperationDecision, check_payload_integrity}
use project_b_multi_agent.Prelude.{
  Bool, Option, String, ap, arith, eq_refl, false, if_both, if_yes, none, not, refl, some, true,
  ◌&&◌, ◌==◌, ◌∙◌, ◌≡◌,
}
use project_b_multi_agent.Resume.{Clock, State, add_audit}
use project_b_multi_agent.Resume.Graph.{
  after_claim, answer_or, by_status, early_answer, handle_claim_failed, resume_graph, run_claimed,
}
use project_b_multi_agent.Resume.Service.{
  answered, by_mode, checked, missing_checkpoint, plan_steps, resume_entry, settle, settled,
  started, tampered,
}
use project_b_multi_agent.Resume.Service.Keeps.{Holds, resume_keyword-Holds, resume_multitool-Holds}
use project_b_multi_agent.Resume.Steps.{Env}

-- the answer says that the approval is used up
abbrev pub consumes : Fields → Bool
consumes answer = is_set "approval_consumed" answer

-- the stored request is approved, and its payload is marked as resumed
abbrev pub is_closed : Option Approval → Bool
is_closed none = false
is_closed (some r) = is_approved r.status && is_set "resumed" (payload_of r.payload)

marks_resumed :
    (x : Fields) (status result consumed : Value)
    → is_set "resumed" (
        merge x (
          field "resumed" (flag true) (
            field "resume_status" status
              (field "resume_result" result (field "approval_consumed" consumed end)))))
      ≡ true
marks_resumed x status result consumed =
    ap (λ (o : Option Value). elim o [ none ↦ false | some v ↦ truthy v ])
      (get-merge "resumed" x (
        field "resumed" (flag true) (
          field "resume_status" status
            (field "resume_result" result (field "approval_consumed" consumed end)))))

-- an update that names `resumed` marks the row
update_payload-is_closed :
    (a : String) (rest : Fields) (rows : Approvals) {r : Approval}
    → get_approval a rows ≡ some r
    → is_approved r.status ≡ true
    → ((d : Fields) → is_set "resumed" (merge d (field "resumed" (flag true) rest)) ≡ true)
    → is_closed (get_approval a (update_payload a (field "resumed" (flag true) rest) rows).0) ≡ true
update_payload-is_closed a rest rows {r} h p marks =
    let (same, at_key) = update_payload_lem a (field "resumed" (flag true) rest) rows h in
    ground (arith, at_key a, eq_refl a, marks (payload_of r.payload))

early-not_consumed :
    (a : String) (payload d : Fields) → early_answer a payload ≡ some d → consumes d ≡ false
unfolding early_answer get
early-not_consumed a payload d h = ground arith

claim_failed-not_consumed :
    (a k : String) (o : Option Checkpoint) → consumes (handle_claim_failed a k o) ≡ false
unfolding handle_claim_failed get
claim_failed-not_consumed a k none = refl
claim_failed-not_consumed a k (some c) = by c.status c.consumed
  where
    by :
        (st : CheckpointStatus) (b : Bool) → consumes (by_status st b c.result_snapshot a k) ≡ false
    by CheckpointStatus.resumed true = refl
    by CheckpointStatus.resumed false = refl
    by CheckpointStatus.completed true = refl
    by CheckpointStatus.completed false = refl
    by _ _ = refl

consumes_same : {d e : Fields} → some d ≡ some e → consumes e ≡ true → consumes d ≡ true
consumes_same {d} {e} p c = ap consumed_in p ∙ c
  where
    consumed_in : Option Fields → Bool
    consumed_in none = false
    consumed_in (some x) = consumes x

module _ {W : Type 0} (a : String) where
  -- if the answer consumes the approval, the stored request is closed
  abbrev pub Closes : State W × Option Fields → Type 0
  Closes o =
      (d : Fields)
      → o.1 ≡ some d
      → consumes d ≡ true
      → is_closed (get_approval a o.0.approvals) ≡ true

  pub open_answer : (s : State W) (x : Fields) → consumes x ≡ false → Closes (s, some x)
  open_answer s x n d e c = cc

  settle-is_closed :
      (r : Approval) (result : Fields) (s : State W)
      → get_approval a s.approvals ≡ some r
      → is_approved r.status ≡ true
      → consumes result ≡ true
      → is_closed (get_approval a (settle a result s).approvals) ≡ true
  unfolding settle
  settle-is_closed r result s h p c =
      ap (λ u. is_closed (get_approval a (update_payload a u s.approvals).0)) (if_yes _ _ _ c)
      ∙ update_payload-is_closed a _ s.approvals h p (λ x. marks_resumed x _ _ _)

  settled-Closes :
      (r : Approval) (o : State W × Option Fields)
      → Holds a r o.0
      → is_approved r.status ≡ true
      → Closes (settled a o)
  settled-Closes r (s, none) h p d e c = cc
  settled-Closes r (s, some result) h p d e c = settle-is_closed r result s h p (consumes_same e c)

module _ {W : Type 0} (env : Env W) (clock : Clock) (a : String) (r : Approval) where
  by_mode-Holds :
      (s : State W) → Holds a r s → Holds a r (by_mode env clock a r (payload_of r.payload) s).0
  by_mode-Holds s h =
      let mode = get_text "mode" (payload_of r.payload) in
      if_both {A = State W × Option Fields} (λ o. Holds a r o.0) (mode == "keyword")
        (resume_keyword-Holds env clock.updated_at a r a r.task_id (payload_of r.payload) s h)
        (if_both {A = State W × Option Fields} (λ o. Holds a r o.0) (mode == "multitool")
          (resume_multitool-Holds env clock.updated_at a r a r.task_id (payload_of r.payload) s h)
          h)

  checked-Closes :
      (integrity : OperationDecision) (s : State W)
      → Holds a r s
      → is_approved r.status ≡ true
      → Closes a (checked env clock a r (payload_of r.payload) integrity s)
  unfolding get
  checked-Closes integrity s h p =
      if_both (Closes a) (not integrity.allowed)
        (open_answer a
          (add_audit (resume_entry "approval_payload_tampered" r.task_id a "blocked") s)
          (tampered a integrity) refl)
        (settled-Closes a r (by_mode env clock a r (payload_of r.payload) s) (by_mode-Holds s h) p)

  run_claimed-Closes :
      (k : String) (c : Checkpoint) (s : State W)
      → Holds a r s
      → is_approved r.status ≡ true
      → Closes a (answered (run_claimed env.gateway clock a r k c s))
  unfolding run_claimed
  run_claimed-Closes k c s h p d e consumed =
      update_payload-is_closed a _ s.approvals h p (λ x. marks_resumed x _ _ _)

  after_claim-Closes :
      (k : String) (claim : Checkpoints × Option Checkpoint) (s : State W)
      → Holds a r s
      → is_approved r.status ≡ true
      → Closes a (answered (after_claim env.gateway clock a r k claim s))
  after_claim-Closes k (rows, none) s h p =
      open_answer a (record s { checkpoints = rows })
        (handle_claim_failed a k (get_checkpoint k rows))
        (claim_failed-not_consumed a k (get_checkpoint k rows))
  after_claim-Closes k (rows, some c) s h p =
      run_claimed-Closes k c (record s { checkpoints = rows }) h p

  answer_or-Closes :
      (early : Option Fields) (s : State W) (o : State W × Fields)
      → early_answer a (payload_of r.payload) ≡ early
      → Closes a (answered o)
      → Closes a (answered (answer_or env.gateway early s o))
  answer_or-Closes none s o e closes = closes
  answer_or-Closes (some x) s o e closes =
      open_answer a s x (early-not_consumed a (payload_of r.payload) x e)

  resume_graph-Closes :
      (s : State W)
      → Holds a r s
      → is_approved r.status ≡ true
      → Closes a (answered (resume_graph env.gateway clock a r s))
  unfolding resume_graph
  resume_graph-Closes s h p =
      let k = get_text "checkpoint_id" (payload_of r.payload) in
      answer_or-Closes _ s _ refl
        (after_claim-Closes k (claim_for_resume k a clock.claimed_at s.checkpoints) s h p)

  pub started-Closes :
      (s : State W)
      → Holds a r s
      → is_approved r.status ≡ true
      → Closes a (started env clock a r (payload_of r.payload) s)
  unfolding get
  started-Closes s h p =
      let payload = payload_of r.payload in
      if_both (Closes a) (get_text "mode" payload == "graph_keyword")
        (if_both (Closes a) (get_text "checkpoint_id" payload == "")
          (open_answer a s (missing_checkpoint a) refl) (resume_graph-Closes s h p))
        (checked-Closes
          (check_payload_integrity env.str_of payload r.tool_name (plan_steps payload)) s h p)
