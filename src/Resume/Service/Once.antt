-- ===== src/Resume/Service/Once.antt =====
-- A consumed approval is not resumed again (app/services/approval_resume.py).
use project_b_multi_agent.ApprovalStore.{
  Approval, get_approval, is_approved, payload_of, status_text,
}
use project_b_multi_agent.Json.{Fields, get, is_set}
use project_b_multi_agent.Prelude.{
  Bool, Option, String, ap, both_true, false, if_both, if_no, if_yes, none, not, refl, some, true,
  ◌∙◌, ◌≡◌,
}
use project_b_multi_agent.Resume.{Clock, State, add_audit}
use project_b_multi_agent.Resume.Service.{
  not_approved, not_found, resume, resume_entry, resumed_before, with_approval,
}
use project_b_multi_agent.Resume.Service.Closes.{
  Closes, consumes, is_closed, open_answer, started-Closes,
}
use project_b_multi_agent.Resume.Steps.{Env}

module _ {W : Type 0} (a : String) where
  with_approval-Closes :
      (env : Env W) (clock : Clock) (found : Option Approval) (s : State W)
      → get_approval a s.approvals ≡ found
      → Closes a (with_approval env clock a found s)
  unfolding get
  with_approval-Closes env clock none s h = open_answer a s (not_found a) refl
  with_approval-Closes env clock (some r) s h = approved_or_not (is_approved r.status) refl
    where
      payload : Fields
      payload = payload_of r.payload

      approved_or_not :
          (b : Bool) → is_approved r.status ≡ b → Closes a (with_approval env clock a (some r) s)
      approved_or_not false n =
          rw (if_yes (not (is_approved r.status)) _ _ (ap not n))
            (open_answer a s (not_approved (status_text r.status)) refl)
      approved_or_not true p = rw (if_no (not (is_approved r.status)) _ _ (ap not p)) (
          if_both (Closes a) (is_set "resumed" payload)
            (open_answer a s (resumed_before a r.task_id payload) refl)
            (started-Closes env clock a r
              (add_audit (resume_entry "approval_resume_started" r.task_id a "success") s) h p))

  -- a resume of a closed request
  closed_resume :
      (env : Env W) (clock : Clock) (found : Option Approval) (s : State W)
      → is_closed found ≡ true
      → ((with_approval env clock a found s).0 ≡ s)
        × ((d : Fields) × ((with_approval env clock a found s).1 ≡ some d)
            × (is_set "already_resumed" d ≡ true))
  unfolding get
  closed_resume env clock none s h = cc
  closed_resume env clock (some r) s h =
      let (p, marked) =
        both_true (is_approved r.status) (is_set "resumed" (payload_of r.payload)) h in
      let stays =
        if_no (not (is_approved r.status)) _ _ (ap not p)
        ∙ if_yes (is_set "resumed" (payload_of r.payload)) _ _ marked in
      (
        ap (λ (o : State W × Option Fields). o.0) stays,
        (
          resumed_before a r.task_id (payload_of r.payload),
          ap (λ (o : State W × Option Fields). o.1) stays,
          refl,
        ),
      )

  -- Once a resume answers that the approval is consumed, in whatever mode, every later resume of
  -- that request answers `already_resumed` and changes nothing: it calls no tool, writes no
  -- store and records no audit entry. The rest of the state may have changed in between.
  pub resume_consumed_once :
      (env env' : Env W) (clock clock' : Clock) (s s' : State W) {d : Fields}
      → (resume env clock a s).1 ≡ some d
      → consumes d ≡ true
      → s'.approvals ≡ (resume env clock a s).0.approvals
      → ((resume env' clock' a s').0 ≡ s')
        × ((e : Fields) × ((resume env' clock' a s').1 ≡ some e)
            × (is_set "already_resumed" e ≡ true))
  unfolding resume
  resume_consumed_once env env' clock clock' s s' {d} h c same =
      closed_resume env' clock' (get_approval a s'.approvals) s' (
        ap (λ rows. is_closed (get_approval a rows)) same
        ∙ with_approval-Closes env clock (get_approval a s.approvals) s refl d h c)
