-- ===== src/Tests/Tools.antt =====
-- The theorems on the gateway, the policy and the placeholders, at small data.
use project_b_multi_agent.ApprovalStore.{high}
use project_b_multi_agent.Gateway.{ToolCallRecord, dict_get, get_tool, is_mcp_tool_allowed}
use project_b_multi_agent.Gateway.Call.{
  call, call_local, call_with_retry, effective_task, record_metrics,
}
use project_b_multi_agent.Gateway.Mcp.{IsFinished, call-IsFinished, call-not_allowed}
use project_b_multi_agent.Gateway.Retry.{IsFirstSuccess, call_with_retry_lem}
use project_b_multi_agent.Json.{Items, cons, dict, end, field, get, nil, num, obj, text}
use project_b_multi_agent.Json.Occurs.{OccursInFields}
use project_b_multi_agent.Policy.{Lookup, check_payload_integrity, evaluate, is_high, no_context}
use project_b_multi_agent.Policy.Decisions.{
  IsPlanned, IsSameTool, check_payload_integrity_iff, evaluate_lem, whitelisted,
}
use project_b_multi_agent.Prelude.{
  String, [], false, none, not, refl, some, true, ℕ, ◌&&◌, ◌↔◌, ◌∷◌, ◌≡◌,
}
use project_b_multi_agent.PyText.{split}
use project_b_multi_agent.Resolve.{resolve_value, resolve_variable}
use project_b_multi_agent.Resolve.Laws.{IsDollar, resolve_fields-unresolved}
use project_b_multi_agent.Tests.{keyword_payload, test_gateway, tool_of}

abbrev local_attempt : ℕ → ToolCallRecord × ℕ
local_attempt w = call_local test_gateway "refund" end w

call_with_retry_lem_example : IsFirstSuccess local_attempt 2 0 (call_with_retry local_attempt 2 0)
call_with_retry_lem_example = call_with_retry_lem local_attempt 2 0

call-IsFinished_example : IsFinished (call test_gateway "refund" end "t1" 0).0
call-IsFinished_example = call-IsFinished test_gateway "refund" end "t1" 0

call-not_allowed_example :
    (r : ToolCallRecord) × (r.success ≡ false)
    × (call test_gateway "wipe" end "t1" 0
        ≡ record_metrics test_gateway.metrics_recorder (effective_task "t1" test_gateway) (r, 0))
unfolding get_tool dict_get is_mcp_tool_allowed
call-not_allowed_example =
    call-not_allowed test_gateway (tool_of "wipe" "mcp") "files" "wipe" end "t1" 0 refl refl refl
      refl

abbrev lookup : Lookup
lookup name = get_tool name test_gateway

evaluate_lem_example :
    let d = evaluate (some (some lookup)) "refund" (some high) no_context in
    let passes = whitelisted (some (some lookup)) "refund" (some high) no_context in
    (d.allowed ≡ (passes && not (is_high (some high))))
    × (d.requires_approval ≡ (passes && is_high (some high)))
evaluate_lem_example = evaluate_lem (some (some lookup)) "refund" (some high) no_context

abbrev two_steps : Items
two_steps = cons (obj (field "step_id" (text "s1") end)) nil

check_payload_integrity_iff_example :
    ((check_payload_integrity (λ v. "") keyword_payload "refund" (some two_steps)).allowed ≡ true)
    ↔ (IsSameTool "refund" (get "tool_name" keyword_payload)
        × IsPlanned (get "step_id" keyword_payload) (some two_steps))
check_payload_integrity_iff_example =
    check_payload_integrity_iff (λ v. "") keyword_payload "refund" (some two_steps)

-- a number in the place of the tool's name is refused
number_refused :
    (check_payload_integrity (λ v. "5") (dict (("tool_name", num 5) ∷ [])) "refund" none).allowed
    ≡ false
unfolding check_payload_integrity get
number_refused = refl

resolve_fields-unresolved_example :
    (s : String) × OccursInFields s (field "a" (text "$x.y") end)
    × IsDollar s "x.y"
    × (resolve_variable end "x.y" ≡ none)
unfolding resolve_value resolve_variable split get
resolve_fields-unresolved_example =
    resolve_fields-unresolved (resolve_variable end) (field "a" (text "$x.y") end) "x.y" refl
