-- ===== src/GraphRun/Completes.antt =====
-- A tool call that a graph run holds is at once a person approves it
-- (app/agent/graph/runtime_adapter.py, app/storage/approval_store.py,
-- app/agent/graph/resume_adapter.py).
use package.text.Mathlib.TextLemmas.{append-eq-nil_iff}
use project_b_multi_agent.ApprovalStore.{
  Approval, Approvals, Request, decide_approval, new_approval, payload_of,
}
use project_b_multi_agent.ApprovalStore.Decide.{decide_approval-pending, decided}
use project_b_multi_agent.CheckpointStore.{
  Checkpoint, Checkpoints, checkpoint_key, claim, claim_for_resume, get_checkpoint, is_claimable,
}
use project_b_multi_agent.CheckpointStore.Claims.{claim_for_resume-claimed}
use project_b_multi_agent.Gateway.{Gateway, ToolSpec}
use project_b_multi_agent.Gateway.Call.{call}
use project_b_multi_agent.GraphRun.{Adapter, Machine, build_tool_approval_interrupt_payload}
use project_b_multi_agent.GraphRun.Approved.{
  FreshIds, Held, NeedsApproval, id_at, run_keyword-AwaitsPerson,
}
use project_b_multi_agent.GraphRun.Interrupted.{Returns, approval_id_at}
use project_b_multi_agent.GraphRun.Responses.{graph_request}
use project_b_multi_agent.GraphRun.Stages.{decision_on, interrupt_of, run_keyword}
use project_b_multi_agent.Json.{Fields, end, get, text}
use project_b_multi_agent.Prelude.{
  Bool-cases, Option, String, eq_iff, eq_refl, false, inl, inr, none, refl, some, true, ℕ, ◌+◌,
  ◌==◌, ◌≡◌,
}
use project_b_multi_agent.Prelude.Table.{IsKeyed}
use project_b_multi_agent.Raise.{Attempt, done, failed_with}
use project_b_multi_agent.Resume.{Clock, State}
use project_b_multi_agent.Resume.Graph.{
  after_claim, build_result, early_answer, resume_graph, run_claimed,
}
use project_b_multi_agent.Resume.Graph.Once.{has_called}

module _ {W : Type 0} where
  claimed-runs :
      (gateway : Gateway W) (clock : Clock) (a : String) (r : Approval) (k : String)
      (c : Checkpoint) (claim_result : Checkpoints × Option Checkpoint) (s : State W)
      → claim_result.1 ≡ some c
      → after_claim gateway clock a r k claim_result s
        ≡ run_claimed gateway clock a r k c (record s { checkpoints = claim_result.0 })
  claimed-runs gateway clock a r k c (rows, none) s h = cc
  claimed-runs gateway clock a r k c (rows, some c') s h = cc

  -- what an approved and claimed call does: the tool is called on the world, and the answer says so
  abbrev pub IsCalled : Gateway W → String → String → W → State W × Fields → Type 0
  IsCalled gateway t task_id w (s, answer) =
      (s.world ≡ (call gateway t end task_id w).1) × (has_called answer ≡ true)

  module _ (env : Adapter W) (task_id query : String) where
    abbrev held_request : ToolSpec → String → String → ℕ → Request
    held_request spec t k asked =
        let decision = decision_on env task_id query spec t in
        graph_request task_id query spec decision t k
          (interrupt_of env task_id query spec decision t k asked)

    run_claimed-IsCalled :
        (clock : Clock) (spec : ToolSpec) (t k a by reason : String) (made asked now : ℕ)
        (c : Checkpoint) (s : State W)
        → (t == "") ≡ false
        → let r = decided true now by reason (new_approval a made (held_request spec t k asked)) in
          IsCalled env.gateway t task_id s.world (run_claimed env.gateway clock a r k c s)
    unfolding run_claimed build_result get build_tool_approval_interrupt_payload
    run_claimed-IsCalled clock spec t k a by reason made asked now c s named = (rw named refl, refl)

    early-none :
        (spec : ToolSpec) (t k a by reason : String) (made asked now : ℕ)
        → (k == "") ≡ false
        → let r = decided true now by reason (new_approval a made (held_request spec t k asked)) in
          early_answer a (payload_of r.payload) ≡ none
    unfolding early_answer get
    early-none spec t k a by reason made asked now named = rw named refl

    resume-IsCalled :
        (clock : Clock) (spec : ToolSpec) (t k a by reason : String) (made asked now : ℕ)
        (row : Checkpoint) (s : State W)
        → (t == "") ≡ false
        → (k == "") ≡ false
        → get_checkpoint k s.checkpoints ≡ some row
        → is_claimable a clock.claimed_at row ≡ true
        → IsKeyed checkpoint_key s.checkpoints
        → let r = decided true now by reason (new_approval a made (held_request spec t k asked)) in
          IsCalled env.gateway t task_id s.world (resume_graph env.gateway clock a r s)
    unfolding resume_graph get
    resume-IsCalled clock spec t k a by reason made asked now row s named k_named found free keyed =
        let r = decided true now by reason (new_approval a made (held_request spec t k asked)) in
        let won = claim_for_resume-claimed k a clock.claimed_at s.checkpoints keyed in
        rw (early-none spec t k a by reason made asked now k_named) (
          rw
            (claimed-runs env.gateway clock a r k (claim clock.claimed_at row)
              (claim_for_resume k a clock.claimed_at s.checkpoints) s (rw (won, found, free) refl))
            (run_claimed-IsCalled clock spec t k a by reason made asked now _ _ named))

    abbrev stores_after : Machine W → Approvals → State W
    stores_after m rows = record m.stores { approvals = rows }

    -- the outcome of a run `answer`, `m` that an approval and a resume follow
    abbrev pub CompletesWhenApproved :
        Clock → ℕ → String → String → State W → ℕ → String → Fields → Machine W → Type 0
    CompletesWhenApproved clock now by reason stores n t answer m =
        let a = approval_id_at env (n + 1 + 1 + 1) in
        let (rows, decision) = decide_approval a true now by reason m.stores.approvals in
        (r : Approval) × (get "approval_id" answer ≡ some (text a))
        × (decision ≡ some (record { row = r; already_decided = false; decision_error = none }))
        × IsCalled env.gateway t task_id stores.world
            (resume_graph env.gateway clock a r (stores_after m rows))

    id_at-ne-empty : (n : ℕ) → (id_at env task_id query "execute" n == "") ≡ false
    id_at-ne-empty n = elim (Bool-cases (id_at env task_id query "execute" n == "")) [
      | inl empty ↦ cc (append-eq-nil_iff.0 ((eq_iff _ _).0 empty)).0
      | inr filled' ↦ filled'
    ]

    Held-CompletesWhenApproved :
        (clock : Clock) (now : ℕ) (by reason : String) (stores : State W) (n : ℕ) (spec : ToolSpec)
        (t : String) (r : Attempt Fields × Machine W)
        → (t == "") ≡ false
        → Returns (Held env task_id query stores n spec t) r
        → Returns (CompletesWhenApproved clock now by reason stores n t) r
    Held-CompletesWhenApproved clock now by reason stores n spec t (failed_with e, m) named held =
        held
    Held-CompletesWhenApproved clock now by reason stores n spec t (done answer, m) named held =
        let a = approval_id_at env (n + 1 + 1 + 1) in
        let k = id_at env task_id query "execute" (n + 1 + 1) in
        let (decided_as, others) =
          decide_approval-pending a true now by reason m.stores.approvals held.found_approval
            refl in
        (
          _,
          held.answer_approval,
          decided_as,
          rw (← held.world) (
              resume-IsCalled clock spec t k a by reason held.made held.asked now held.row
                (stores_after m (decide_approval a true now by reason m.stores.approvals).0) named
                (id_at-ne-empty (n + 1 + 1)) held.found_row
                (rw (held.row_approval, held.row_status, held.row_free, held.row_expiry, eq_refl a)
                  refl)
                held.keyed),
        )

-- A keyword run whose plan names a registered tool that a person has to approve, with an approval
-- store and with ids that are new, answers with the id of an approval. Approving it succeeds, and
-- resuming it then calls the tool once on the world as the run found it, and reports the call:
-- whoever approves, at whatever time, with whatever reason.
pub run_keyword-CompletesWhenApproved :
    {W : Type 0} (env : Adapter W) (task_id query t : String) (spec : ToolSpec) (stores : State W)
    (n : ℕ) (clock : Clock) (now : ℕ) (by reason : String)
    → NeedsApproval env task_id query spec t
    → FreshIds env task_id query stores n
    → Returns
        (CompletesWhenApproved env task_id query clock now by reason stores n t)
        (run_keyword env task_id query stores n)
run_keyword-CompletesWhenApproved env task_id query t spec stores n clock now by reason needs
      fresh =
    Held-CompletesWhenApproved env task_id query clock now by reason stores n spec t
      (run_keyword env task_id query stores n) needs.named
      (run_keyword-AwaitsPerson env task_id query stores n spec t needs fresh)
