-- ===== src/Resume/Service/Outcomes.antt =====
-- What a resume does with a payload that was tampered with, and with an approval that it did not
-- consume (app/services/approval_resume.py).
use mathlib.Core.Option
use project_b_multi_agent.ApprovalStore.{Approval, get_approval, payload_of, update_payload}
use project_b_multi_agent.ApprovalStore.Decide.{update_payload_lem, with_payload}
use project_b_multi_agent.Json.{Fields, Value, as_num, get, merge}
use project_b_multi_agent.Json.Laws.{get-merge}
use project_b_multi_agent.Prelude.{
  Option, String, ap, eq_refl, false, if_no, if_yes, none, some, ℕ, ◌+◌, ◌==◌, ◌∙◌, ◌≡◌,
}
use project_b_multi_agent.Resume.{State}
use project_b_multi_agent.Resume.Service.{current_payload, retry_update, settle}
use project_b_multi_agent.Resume.Service.Closes.{consumes}

-- the resumes of the request so far that did not consume it
abbrev pub attempts : Option Approval → ℕ
attempts none = 0
attempts (some r) = as_num (get "resume_attempt_count" (payload_of r.payload))

abbrev pub resumed_flag : Option Approval → Option Value
resumed_flag none = none
resumed_flag (some r) = get "resumed" (payload_of r.payload)

module _ {W : Type 0} where
  settle-retried :
      (a : String) (r : Approval) (result : Fields) (s : State W)
      → get_approval a s.approvals ≡ some r
      → consumes result ≡ false
      → get_approval a (settle a result s).approvals
        ≡ some (
            with_payload
              (merge (payload_of r.payload) (retry_update (payload_of r.payload) result))
              r)
  unfolding settle
  settle-retried a r result s h c =
      ap (λ u. get_approval a (update_payload a u s.approvals).0)
        (if_no (consumes result) _ _ c
          ∙ ap (λ found. retry_update (current_payload found) result) h)
      ∙ (update_payload_lem a _ s.approvals h).1 a
      ∙ if_yes (a == a) _ _ (eq_refl a)

  -- An outcome that does not consume the approval counts one more attempt in its payload and
  -- leaves its status and the mark `resumed` as they are, so that it can be resumed again.
  pub settle-retry :
      (a : String) (r : Approval) (result : Fields) (s : State W)
      → get_approval a s.approvals ≡ some r
      → consumes result ≡ false
      → let row = get_approval a (settle a result s).approvals in
        (attempts row ≡ attempts (some r) + 1)
        × (resumed_flag row ≡ resumed_flag (some r))
        × (Option.map (λ q. q.status) row ≡ some r.status)
  settle-retry a r result s h c =
      let d = payload_of r.payload in
      let e = retry_update d result in
      let row = settle-retried a r result s h c in
      (
        ap attempts row ∙ ap as_num (get-merge "resume_attempt_count" d e),
        ap resumed_flag row ∙ get-merge "resumed" d e,
        ap (Option.map (λ (q : Approval). q.status)) row,
      )
