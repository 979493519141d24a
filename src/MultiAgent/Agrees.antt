-- ===== src/MultiAgent/Agrees.antt =====
-- The coordinator and the keyword planner read one table of rules, and do not drift apart
-- (app/agent/multi_agent/coordinator.py, app/agent/nodes/planner.py).
use project_b_multi_agent.Keyword.{RoutingRule, any_in, has_tool, keep_tools, match_of, plan}
use project_b_multi_agent.Keyword.Laws.{applies, plan-cons}
use project_b_multi_agent.MultiAgent.Coordinator.{match_rule, matched_keywords}
use project_b_multi_agent.Prelude.{
  Bool, Bool-cases, List, String, [], arith, false, if_no, if◌then◌else◌, inl, inr, refl, some,
  true, ◌∙◌, ◌∷◌, ◌≡◌, ◌⊎◌,
}
use project_b_multi_agent.PyText.{contains}
use project_b_multi_agent.TaskStore.{without}

any_in_lem :
    (kws : List String) (query : String)
    → ((any_in kws query ≡ false) × (matched_keywords kws query ≡ []))
      ⊎ ((any_in kws query ≡ true)
          × (k : String) × (ks : List String) × (matched_keywords kws query ≡ k ∷ ks))
unfolding matched_keywords
any_in_lem [] query = inl (refl, refl)
any_in_lem (kw ∷ kws) query = elim (Bool-cases (contains query kw)) [
  | inl hit ↦ inr (ground arith, kw, matched_keywords kws query, ground arith)
  | inr miss ↦ elim (any_in_lem kws query) [
    | inl (e, f) ↦ inl (ground arith, ground arith)
    | inr (e, k, ks, f) ↦ inr (ground arith, k, ks, ground arith)
  ]
]

module _ (switches : String → Bool) (query : String) where
  match_rule-cons :
      (r : RoutingRule) (table : List RoutingRule)
      → match_rule switches (r ∷ table) query ≡ (
          if applies switches query r
          then some (r, matched_keywords r.keywords query)
          else match_rule switches table query)
  unfolding match_rule
  match_rule-cons r table = elim (any_in_lem r.keywords query) [
    | inl (e, f) ↦ ground (arith, e, f)
    | inr (e, k, ks, f) ↦ ground (arith, e, f)
  ]

  -- Over any table: if the first rule that the coordinator matches has a tool, the planner, whose
  -- table is the rules with a tool, plans that rule's tool.
  pub match_rule-plan :
      (table : List RoutingRule) (rule : RoutingRule) (matched : List String)
      → match_rule switches table query ≡ some (rule, matched)
      → has_tool rule.tool_name ≡ true
      → plan switches (keep_tools table) query ≡ match_of rule
  match_rule-plan [] rule matched h tool = unfold match_rule in cc h
  match_rule-plan (r ∷ table) rule matched h tool = elim (Bool-cases (has_tool r.tool_name)) [
    | inl has ↦ elim (Bool-cases (applies switches query r)) [
      | inl hit ↦
          rw has
            (ground (arith, plan-cons switches query r (keep_tools table), match_rule-cons r table))
      | inr miss ↦ rw has (
          plan-cons switches query r (keep_tools table)
          ∙ if_no (applies switches query r) _ _ miss
          ∙ match_rule-plan table rule matched (ground (arith, match_rule-cons r table)) tool)
    ]
    | inr without ↦ elim (Bool-cases (applies switches query r)) [
      | inl hit ↦ absurd (ground (arith, match_rule-cons r table))
      | inr miss ↦
          rw without
            (match_rule-plan table rule matched (ground (arith, match_rule-cons r table)) tool)
    ]
  ]
