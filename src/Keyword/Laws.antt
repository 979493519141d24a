-- ===== src/Keyword/Laws.antt =====
-- What the keyword planner of app/agent/nodes/planner.py chooses.
use project_b_multi_agent.Keyword.{
  Plan, RoutingRule, any_in, match_of, no_match, plan, rule_enabled, switched_on,
}
use project_b_multi_agent.Prelude.{
  All, Bool, Bool-cases, List, Option, String, [], and_true, ap, arith, both_true, eq_iff, false,
  if_no, if_yes, if◌then◌else◌, inl, inr, none, refl, some, sym, true, ◌&&◌, ◌==◌, ◌↔◌, ◌∙◌, ◌∷◌,
  ◌≡◌, ◌⊎◌,
}
use project_b_multi_agent.PyText.{contains}

abbrev pub applies : (String → Bool) → String → RoutingRule → Bool
applies switches query rule = rule_enabled switches rule && any_in rule.keywords query

-- The rule that a plan comes from: it is in force, one of its keywords is in the query, and no
-- rule before it is and has.
data Chooses (switches : String → Bool) (query : String) (rule : RoutingRule)
    : List RoutingRule → Type 0 where
  chosen :
      {table : List RoutingRule}
      → applies switches query rule ≡ true
      → Chooses switches query rule (rule ∷ table)
  passed :
      {other : RoutingRule} {table : List RoutingRule}
      → applies switches query other ≡ false
      → Chooses switches query rule table
      → Chooses switches query rule (other ∷ table)

-- the planner finds nothing, and rightly
abbrev IsUnmatched : (String → Bool) → String → List RoutingRule → Plan → Type 0
IsUnmatched switches query table p =
    (p ≡ no_match) × All (λ r. applies switches query r ≡ false) table

abbrev IsMatch : (String → Bool) → String → List RoutingRule → Plan → Type 0
IsMatch switches query table p =
    (rule : RoutingRule) × Chooses switches query rule table × (p ≡ match_of rule)

module _ (switches : String → Bool) (query : String) where
  pub plan-cons :
      (r : RoutingRule) (table : List RoutingRule)
      → plan switches (r ∷ table) query
        ≡ (if applies switches query r then match_of r else plan switches table query)
  unfolding plan
  plan-cons r table = ground arith

  pass :
      (r : RoutingRule) (table : List RoutingRule) (p p' : Plan)
      → p' ≡ p
      → applies switches query r ≡ false
      → IsUnmatched switches query table p ⊎ IsMatch switches query table p
      → IsUnmatched switches query (r ∷ table) p' ⊎ IsMatch switches query (r ∷ table) p'
  pass r table p p' same skip (inl (e, others)) = inl (same ∙ e, (skip, others))
  pass r table p p' same skip (inr (rule, c, e)) = inr (rule, passed skip c, same ∙ e)

  plan_by_rules :
      (table : List RoutingRule)
      → IsUnmatched switches query table (plan switches table query)
        ⊎ IsMatch switches query table (plan switches table query)
  plan_by_rules [] = inl (unfold plan in refl, tt)
  plan_by_rules (r ∷ table) = elim (Bool-cases (applies switches query r)) [
    | inl hit ↦ inr (r, chosen hit, plan-cons r table ∙ if_yes (applies switches query r) _ _ hit)
    | inr skip ↦
        pass r table (plan switches table query) (plan switches (r ∷ table) query)
          (plan-cons r table ∙ if_no (applies switches query r) _ _ skip) skip (plan_by_rules table)
  ]

-- the rule names no switch, or one that is on
abbrev pub IsSwitchedOn : (String → Bool) → Option String → Type 0
IsSwitchedOn switches none = Unit
IsSwitchedOn switches (some s) = (s ≡ "") ⊎ (switches s ≡ true)

-- one of the keywords is in the query
pub data Mentions (query : String) : List String → Type 0 where
  this_keyword :
      {kw : String} {kws : List String} → contains query kw ≡ true → Mentions query (kw ∷ kws)
  other_keyword : {kw : String} {kws : List String} → Mentions query kws → Mentions query (kw ∷ kws)

abbrev pub Applies : (String → Bool) → String → RoutingRule → Type 0
Applies switches query rule =
    IsSwitchedOn switches rule.settings_switch × Mentions query rule.keywords

-- the first rule of the table that applies
pub data IsFirst (switches : String → Bool) (query : String) (rule : RoutingRule)
    : List RoutingRule → Type 0 where
  here :
      {table : List RoutingRule}
      → Applies switches query rule
      → IsFirst switches query rule (rule ∷ table)
  further :
      {other : RoutingRule} {table : List RoutingRule}
      → (Applies switches query other → ⊥)
      → IsFirst switches query rule table
      → IsFirst switches query rule (other ∷ table)

switched_on_iff :
    (switches : String → Bool) (o : Option String)
    → (switched_on switches o ≡ true) ↔ IsSwitchedOn switches o
switched_on_iff switches none = (λ h. tt, λ h. refl)
switched_on_iff switches (some s) = (
  λ h. elim (Bool-cases (s == "")) [
    | inl e ↦ inl ((eq_iff s "").0 e)
    | inr e ↦ inr (sym (if_no _ _ _ e) ∙ h)
  ],
  λ h. elim h [ inl e ↦ if_yes _ _ _ ((eq_iff s "").1 e) | inr e ↦ ground (arith, e) ],
)

any_in-Mentions :
    (kws : List String) (query : String) → any_in kws query ≡ true → Mentions query kws
any_in-Mentions [] query h = cc
any_in-Mentions (kw ∷ kws) query h = elim (Bool-cases (contains query kw)) [
  | inl e ↦ this_keyword e
  | inr e ↦ other_keyword (any_in-Mentions kws query (ground (arith, e, h)))
]

Mentions-any_in :
    (kws : List String) (query : String) → Mentions query kws → any_in kws query ≡ true
Mentions-any_in [] query h = elim h [ ]
Mentions-any_in (kw ∷ kws) query (this_keyword e) = ground (arith, e)
Mentions-any_in (kw ∷ kws) query (other_keyword m) = ground (arith, Mentions-any_in kws query m)

applies_iff :
    (switches : String → Bool) (query : String) (rule : RoutingRule)
    → (applies switches query rule ≡ true) ↔ Applies switches query rule
unfolding rule_enabled
applies_iff switches query rule =
    let on = switched_on_iff switches rule.settings_switch in
    (
      λ h.
          (let both = both_true _ _ h in (on.0 both.0, any_in-Mentions rule.keywords query both.1)),
      λ h. and_true (on.1 h.0) (Mentions-any_in rule.keywords query h.1),
    )

applies-no :
    (switches : String → Bool) (query : String) (rule : RoutingRule)
    → applies switches query rule ≡ false
    → Applies switches query rule
    → ⊥
applies-no switches query rule h a = cc (h, (applies_iff switches query rule).1 a)

Chooses-IsFirst :
    (switches : String → Bool) (query : String) (rule : RoutingRule) (table : List RoutingRule)
    → Chooses switches query rule table
    → IsFirst switches query rule table
Chooses-IsFirst switches query rule [] c = elim c [ ]
Chooses-IsFirst switches query rule (r ∷ table) (chosen h) =
    here ((applies_iff switches query r).0 h)
Chooses-IsFirst switches query rule (r ∷ table) (passed h c) =
    further (applies-no switches query r h) (Chooses-IsFirst switches query rule table c)

All-none :
    (switches : String → Bool) (query : String) (table : List RoutingRule)
    → All (λ r. applies switches query r ≡ false) table
    → All (λ r. Applies switches query r → ⊥) table
All-none switches query [] h = tt
All-none switches query (r ∷ table) (h, hs) =
    (applies-no switches query r h, All-none switches query table hs)

-- A plan matches no rule, and then none applies: none is switched on and has a keyword that is in
-- the query; or it has the tool and the label of the first rule of the table that applies.
pub plan_lem :
    (switches : String → Bool) (query : String) (table : List RoutingRule)
    → let p = plan switches table query in
      ((p.matched ≡ false) × (p.tool_name ≡ none) × All (λ r. Applies switches query r → ⊥) table)
      ⊎ ((rule : RoutingRule) × IsFirst switches query rule table
          × (p.matched ≡ true)
          × (p.tool_name ≡ rule.tool_name)
          × (p.label ≡ rule.label))
plan_lem switches query table = elim (plan_by_rules switches query table) [
  | inl (e, others) ↦
      inl (ap Plan.matched e, ap Plan.tool_name e, All-none switches query table others)
  | inr (rule, c, e) ↦ inr (
    rule,
    Chooses-IsFirst switches query rule table c,
    ap Plan.matched e,
    ap Plan.tool_name e,
    ap Plan.label e,
  )
]
