-- ===== src/Budget/Limits.antt =====
-- The hard limit and the summary of app/harness/llm/budget.py, after any usages.
use Prim.Native.Nat.{◌/◌}
use project_b_multi_agent.Budget.{
  BudgetDecision, Call, Floats, Manager, Moment, Prices, Usage, check_budget, cost_of, costs_by,
  estimated, max_zero, new_manager, normal_scope, not_below_zero, or_unknown, reaches, summary,
  usage_of,
}
use project_b_multi_agent.Budget.Sums.{
  by_model_in, by_provider_in, cost_of-costs_after, cost_of-costs_by, costs_after, in_name,
  in_period, kept, named_or_unknown, period, record_all, record_all-disabled, record_all-enabled,
  spent,
}
use project_b_multi_agent.Gateway.{dict_get}
use project_b_multi_agent.Prelude.{
  Bool, Bool-cases, List, Option, String, [], ap, ap₂, false, if_both, if_no, if_split, if_yes,
  if◌then◌else◌, inl, inr, length, map, none, not, refl, some, sym, true, ◌&&◌, ◌==◌, ◌∙◌, ◌∷◌, ◌≡◌,
}
use project_b_multi_agent.RequestGuards.{at_least_one}
use project_b_multi_agent.SqlGuard.{codes}

or_unknown-named : (s : String) → or_unknown (or_unknown s) ≡ named_or_unknown s
or_unknown-named s = elim (Bool-cases (s == "")) [
  | inl e ↦ ap or_unknown (if_yes _ _ _ e) ∙ sym (if_yes _ _ _ e)
  | inr e ↦ ap or_unknown (if_no _ _ _ e)
]

module _ {C : Type 0} (fl : Floats C) where
  -- a cost that is given counts itself; where it is not above zero, a prompt counts with a token for
  -- every four characters, at least one, and the tokens of an answer, each at its price
  abbrev pub estimate_of : Prices C → C → Option String → C
  estimate_of p cost none = if fl.less fl.zero_cost cost then cost else fl.zero_cost
  estimate_of p cost (some prompt) =
      let given = if fl.less fl.zero_cost cost then cost else fl.zero_cost in
      let price : C → C = λ c. if fl.less fl.zero_cost c then c else fl.zero_cost in
      let tokens = if prompt == "" then 0 else at_least_one (length (codes prompt) / 4) in
      if not (fl.less_eq given fl.zero_cost)
      then given
      else if p.llm_cost_estimation_enabled
      then fl.add (fl.times (fl.thousandths tokens) (price p.llm_cost_per_1k_prompt_tokens_usd)) (
          fl.times (fl.thousandths (not_below_zero p.llm_estimated_completion_tokens))
            (price p.llm_cost_per_1k_completion_tokens_usd))
      else fl.zero_cost

  estimated-estimate_of :
      (p : Prices C) (cost : C) (prompt : Option String)
      → estimated fl p (max_zero fl cost) prompt ≡ estimate_of p cost prompt
  estimated-estimate_of p cost none = refl
  estimated-estimate_of p cost (some prompt) =
      by_tests (fl.less_eq (max_zero fl cost) fl.zero_cost) p.llm_cost_estimation_enabled
        (max_zero fl cost) _
    where
      by_tests :
          (b e : Bool) (given priced : C)
          → (if b then (if not e then fl.zero_cost else priced) else given)
            ≡ (if not b then given else if e then priced else fl.zero_cost)
      by_tests true true given priced = refl
      by_tests true false given priced = refl
      by_tests false e given priced = refl

  spent-same :
      (t t' : Call C → Bool)
      → ((c : Call C) → t c ≡ t' c)
      → (calls : List (Call C)) (sum : C) → spent fl t calls sum ≡ spent fl t' calls sum
  unfolding spent
  spent-same t t' h [] sum = refl
  spent-same t t' h (c ∷ calls) sum =
      ap
        (λ b. spent fl t calls (
          if b
          then fl.add sum (if fl.less fl.zero_cost c.cost then c.cost else fl.zero_cost)
          else sum))
        (h c)
      ∙ spent-same t t' h calls _

  module _ (soft_limit hard_limit : C) (scope : String) (p : Prices C) (now : Moment) (cost : C)
      (prompt : Option String) where
    -- the decision of a manager with the costs
    abbrev decides : Bool → List (String × C) → List (Usage C) → BudgetDecision C
    decides on costs events =
        check_budget fl p (kept fl soft_limit hard_limit scope on costs events) now cost prompt

    allowed-on :
        (costs : List (String × C)) (events : List (Usage C))
        → (decides true costs events).allowed
          ≡ not (
              reaches fl hard_limit (
                fl.add
                  (cost_of fl (period scope now) costs)
                  (estimated fl p (max_zero fl cost) prompt)))
    unfolding check_budget
    allowed-on costs events =
        let est = estimated fl p (max_zero fl cost) prompt in
        let projected = fl.add (cost_of fl (period scope now) costs) est in
        let hard = reaches fl hard_limit projected in
        if_split (λ (r : BudgetDecision C). r.allowed ≡ not hard) hard (λ h. sym (ap not h))
          (λ h.
            if_both (λ (r : BudgetDecision C). r.allowed ≡ not hard)
              (reaches fl soft_limit projected) (sym (ap not h)) (sym (ap not h)))

    estimated-on :
        (costs : List (String × C)) (events : List (Usage C))
        → (decides true costs events).estimated_cost ≡ estimated fl p (max_zero fl cost) prompt
    unfolding check_budget
    estimated-on costs events =
        let est = estimated fl p (max_zero fl cost) prompt in
        let projected = fl.add (cost_of fl (period scope now) costs) est in
        let Q : BudgetDecision C → Type 0 = λ r. r.estimated_cost ≡ est in
        if_both Q (reaches fl hard_limit projected) refl
          (if_both Q (reaches fl soft_limit projected) refl refl)

    allowed-off :
        (costs : List (String × C)) (events : List (Usage C))
        → (decides false costs events).allowed ≡ true
    unfolding check_budget
    allowed-off costs events = refl

    estimated-off :
        (costs : List (String × C)) (events : List (Usage C))
        → (decides false costs events).estimated_cost ≡ fl.zero_cost
    unfolding check_budget
    estimated-off costs events = refl

    spent-on :
        (calls : List (Call C))
        → cost_of fl (period scope now) (costs_after fl (period scope) calls [])
          ≡ spent fl (in_period scope (period scope now)) calls fl.zero_cost
    unfolding dict_get
    spent-on calls = cost_of-costs_after fl scope (period scope now) calls []

  module _ (lower : String → String) (soft_limit hard_limit : C) (scope_setting : String)
      (calls : List (Call C)) where
    abbrev after_calls : Bool → Manager C
    after_calls enabled =
        record_all fl calls (new_manager lower enabled soft_limit hard_limit scope_setting)

    after_calls-on :
        after_calls true
        ≡ kept fl soft_limit hard_limit
            (normal_scope lower scope_setting)
            true
            (costs_after fl (period (normal_scope lower scope_setting)) calls [])
            (map
              (usage_of fl
                (kept fl soft_limit hard_limit (normal_scope lower scope_setting) true [] []))
              calls)
    after_calls-on =
        record_all-enabled fl soft_limit hard_limit (normal_scope lower scope_setting) calls [] []

    -- After any usages of a new manager, a call of the model is refused exactly if the budget is
    -- enabled, the hard limit is above zero, and the costs of the calls recorded in the time's period,
    -- added up from the first to the last, plus the estimate reach it. The decision reports the estimate
    -- that counts, the given cost or one for the prompt where that is not above zero, and zero if the
    -- budget is disabled.
    pub check_budget-record_all :
        (enabled : Bool) (p : Prices C) (now : Moment) (cost : C) (prompt : Option String)
        → let scope = normal_scope lower scope_setting in
          let d = check_budget fl p (after_calls enabled) now cost prompt in
          let sum = spent fl (in_period scope (period scope now)) calls fl.zero_cost in
          (d.allowed
            ≡ not (
                enabled
                && (fl.less fl.zero_cost hard_limit
                    && fl.less_eq hard_limit (fl.add sum (estimate_of p cost prompt)))))
          × (d.estimated_cost ≡ (if enabled then estimate_of p cost prompt else fl.zero_cost))
    check_budget-record_all true p now cost prompt =
        let scope = normal_scope lower scope_setting in
        let est = estimated-estimate_of p cost prompt in
        let same = after_calls-on in
        (
          ap (λ m. (check_budget fl p m now cost prompt).allowed) same
              ∙ allowed-on soft_limit hard_limit scope p now cost prompt _ _
              ∙ ap₂ (λ (sum : C) (e : C). not (reaches fl hard_limit (fl.add sum e)))
                  (spent-on soft_limit hard_limit scope p now cost prompt calls) est,
          ap (λ m. (check_budget fl p m now cost prompt).estimated_cost) same
              ∙ estimated-on soft_limit hard_limit scope p now cost prompt _ _
              ∙ est,
        )
    check_budget-record_all false p now cost prompt = (
      ap (λ m. (check_budget fl p m now cost prompt).allowed)
            (record_all-disabled fl soft_limit hard_limit (normal_scope lower scope_setting) calls)
          ∙ allowed-off soft_limit hard_limit (normal_scope lower scope_setting) p now cost prompt
              [] [],
      ap (λ m. (check_budget fl p m now cost prompt).estimated_cost)
            (record_all-disabled fl soft_limit hard_limit (normal_scope lower scope_setting) calls)
          ∙ estimated-off soft_limit hard_limit (normal_scope lower scope_setting) p now cost prompt
              [] [],
    )

    listed-on :
        (part : Usage C → String) (now : Moment) (name : String) (t : Call C → Bool)
        → let scope = normal_scope lower scope_setting in
          let m = kept fl soft_limit hard_limit scope true [] [] in
          ((c : Call C) → in_name fl scope (period scope now) part m name c ≡ t c)
          → cost_of fl name (costs_by fl part (period scope now) (map (usage_of fl m) calls) [])
            ≡ spent fl t calls fl.zero_cost
    unfolding dict_get
    listed-on part now name t h =
        let scope = normal_scope lower scope_setting in
        let m = kept fl soft_limit hard_limit scope true [] [] in
        cost_of-costs_by fl m part (period scope now) name calls []
        ∙ spent-same (in_name fl scope (period scope now) part m name) t h calls fl.zero_cost

    -- After any usages of a new manager that is enabled, the summary reports for the time's period the
    -- sum of the costs recorded in it, for each provider the sum of those by the provider, and for each
    -- model the sum of those with it, each added up in the order of the calls. A manager that is
    -- disabled reports no cost at all.
    pub summary-record_all :
        (enabled : Bool) (now : Moment) (name : String)
        → let scope = normal_scope lower scope_setting in
          let s = summary fl (after_calls enabled) now in
          let sum = λ (t : Call C → Bool).
            if enabled then spent fl t calls fl.zero_cost else fl.zero_cost in
          (s.current_cost ≡ sum (in_period scope (period scope now)))
          × (cost_of fl name s.by_provider ≡ sum (by_provider_in scope (period scope now) name))
          × (cost_of fl name s.by_model ≡ sum (by_model_in scope (period scope now) name))
    unfolding summary dict_get
    summary-record_all true now name =
        let scope = normal_scope lower scope_setting in
        let same = after_calls-on in
        (
          ap (λ m. (summary fl m now).current_cost) same
              ∙ cost_of-costs_after fl scope (period scope now) calls [],
          ap (λ m. cost_of fl name (summary fl m now).by_provider) same
              ∙ listed-on (λ e. e.provider) now name (by_provider_in scope (period scope now) name)
                  (λ c.
                    ap (λ n. in_period scope (period scope now) c && n == name)
                      (or_unknown-named c.provider)),
          ap (λ m. cost_of fl name (summary fl m now).by_model) same
              ∙ listed-on (λ e. e.model) now name (by_model_in scope (period scope now) name)
                  (λ c.
                    ap (λ n. in_period scope (period scope now) c && n == name)
                      (or_unknown-named c.model)),
        )
    summary-record_all false now name =
        let same =
          record_all-disabled fl soft_limit hard_limit (normal_scope lower scope_setting) calls in
        (
          ap (λ m. (summary fl m now).current_cost) same,
          ap (λ m. cost_of fl name (summary fl m now).by_provider) same,
          ap (λ m. cost_of fl name (summary fl m now).by_model) same,
        )
