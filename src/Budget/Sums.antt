-- ===== src/Budget/Sums.antt =====
-- What the budget of app/harness/llm/budget.py has recorded, for any arithmetic of the costs.
use project_b_multi_agent.Budget.{
  Call, Floats, Manager, Moment, Usage, add_cost, cost_of, costs_by, max_zero, or_unknown, or_zero,
  record_usage, usage_of,
}
use project_b_multi_agent.Gateway.{dict_get}
use project_b_multi_agent.Gateway.Dicts.{dict_get-dict_put}
use project_b_multi_agent.Prelude.{
  Bool, Bool-cases, List, String, [], ap, eq_iff, false, if_no, if_yes, if◌then◌else◌, inl, inr,
  map, refl, some, sym, true, ◌&&◌, ◌++◌, ◌==◌, ◌∙◌, ◌∷◌, ◌≡◌, ◌⊎◌,
}

-- the key of the period that a time is in
abbrev pub period : String → Moment → String
period scope now =
    if scope == "global" then "global" else if scope == "hourly" then now.hour else now.day

abbrev pub named_or_unknown : String → String
named_or_unknown s = if s == "" then "unknown" else s

unfoldable pub record_all : {C : Type 0} → Floats C → List (Call C) → Manager C → Manager C
unfolding record_usage
record_all fl [] m = m
record_all fl (c ∷ calls) m = record_all fl calls (record_usage fl c m)

-- the sum, from left to right, of the costs of the calls that `test` holds of; a cost below zero
-- counts as zero
unfoldable pub spent : {C : Type 0} → Floats C → (Call C → Bool) → List (Call C) → C → C
spent fl test [] sum = sum
spent fl test (c ∷ calls) sum = spent fl test calls (
    if test c
    then fl.add sum (if fl.less fl.zero_cost c.cost then c.cost else fl.zero_cost)
    else sum)

-- the calls of a period, and those of them by one provider and with one model
abbrev pub in_period : {C : Type 0} → String → String → Call C → Bool
in_period scope key c = period scope c.now == key

abbrev pub by_provider_in : {C : Type 0} → String → String → String → Call C → Bool
by_provider_in scope key name c = in_period scope key c && named_or_unknown c.provider == name

abbrev pub by_model_in : {C : Type 0} → String → String → String → Call C → Bool
by_model_in scope key name c = in_period scope key c && named_or_unknown c.model == name

module _ {C : Type 0} (fl : Floats C) where
  cost_of-add_cost :
      (key j : String) (cost : C) (costs : List (String × C))
      → cost_of fl j (add_cost fl key cost costs)
        ≡ (if key == j then fl.add (cost_of fl j costs) cost else cost_of fl j costs)
  cost_of-add_cost key j cost costs =
      let put = dict_get-dict_put key j (fl.add (cost_of fl key costs) cost) costs in
      ap (or_zero fl) put ∙ by_key (Bool-cases (key == j))
    where
      by_key :
          ((key == j) ≡ true) ⊎ ((key == j) ≡ false)
          → or_zero fl
              (if key == j then some (fl.add (cost_of fl key costs) cost) else dict_get j costs)
            ≡ (if key == j then fl.add (cost_of fl j costs) cost else cost_of fl j costs)
      by_key (inl e) =
          ap (or_zero fl) (if_yes _ _ _ e)
          ∙ ap (λ k. fl.add (cost_of fl k costs) cost) ((eq_iff key j).0 e)
          ∙ sym (if_yes _ _ _ e)
      by_key (inr e) = ap (or_zero fl) (if_no _ _ _ e) ∙ sym (if_no _ _ _ e)

  -- the costs by scope after the calls
  unfoldable pub costs_after :
      (Moment → String) → List (Call C) → List (String × C) → List (String × C)
  costs_after key_of [] costs = costs
  costs_after key_of (c ∷ calls) costs =
      costs_after key_of calls (add_cost fl (key_of c.now) (max_zero fl c.cost) costs)

  pub cost_of-costs_after :
      (scope key : String) (calls : List (Call C)) (costs : List (String × C))
      → cost_of fl key (costs_after (period scope) calls costs)
        ≡ spent fl (in_period scope key) calls (cost_of fl key costs)
  unfolding costs_after spent
  cost_of-costs_after scope key [] costs = refl
  cost_of-costs_after scope key (c ∷ calls) costs =
      cost_of-costs_after scope key calls
        (add_cost fl (period scope c.now) (max_zero fl c.cost) costs)
      ∙ ap (spent fl (in_period scope key) calls)
          (cost_of-add_cost (period scope c.now) key (max_zero fl c.cost) costs)

  -- the calls whose event has the name, when `part` reads it
  abbrev pub in_name : String → String → (Usage C → String) → Manager C → String → Call C → Bool
  in_name scope key part m name c =
      in_period scope key c && or_unknown (part (usage_of fl m c)) == name

  pub cost_of-costs_by :
      (m : Manager C) (part : Usage C → String) (key name : String) (calls : List (Call C))
      (costs : List (String × C))
      → cost_of fl name (costs_by fl part key (map (usage_of fl m) calls) costs)
        ≡ spent fl (in_name m.scope key part m name) calls (cost_of fl name costs)
  unfolding costs_by spent
  cost_of-costs_by m part key name [] costs = refl
  cost_of-costs_by m part key name (c ∷ calls) costs =
      let event = usage_of fl m c in
      let named = or_unknown (part event) in
      cost_of-costs_by m part key name calls
        (if event.scope_key == key then add_cost fl named event.cost costs else costs)
      ∙ ap (spent fl (in_name m.scope key part m name) calls)
          (step (event.scope_key == key) named event.cost)
    where
      step :
          (b : Bool) (named : String) (cost : C)
          → cost_of fl name (if b then add_cost fl named cost costs else costs) ≡ (
              if b && named == name
              then fl.add (cost_of fl name costs) cost
              else cost_of fl name costs)
      step true named cost = cost_of-add_cost named name cost costs
      step false named cost = refl

  append_assoc :
      (us : List (Usage C)) (u : Usage C) (vs : List (Usage C))
      → (us ++ u ∷ []) ++ vs ≡ us ++ u ∷ vs
  append_assoc [] u vs = refl
  append_assoc (x ∷ us) u vs = ap (λ l. x ∷ l) (append_assoc us u vs)

  append_nil : (us : List (Usage C)) → us ++ [] ≡ us
  append_nil [] = refl
  append_nil (x ∷ us) = ap (λ l. x ∷ l) (append_nil us)

  module _ (soft_limit hard_limit : C) (scope : String) where
    abbrev pub kept : Bool → List (String × C) → List (Usage C) → Manager C
    kept enabled costs events = record {
      enabled = enabled;
      soft_limit = soft_limit;
      hard_limit = hard_limit;
      scope = scope;
      cost_by_scope = costs;
      usage_events = events;
    }

    pub record_all-enabled :
        (calls : List (Call C)) (costs : List (String × C)) (events : List (Usage C))
        → record_all fl calls (kept true costs events)
          ≡ kept true
              (costs_after (period scope) calls costs)
              (events ++ map (usage_of fl (kept true [] [])) calls)
    unfolding record_all record_usage costs_after
    record_all-enabled [] costs events = ap (kept true costs) (sym (append_nil events))
    record_all-enabled (c ∷ calls) costs events =
        let u = usage_of fl (kept true [] []) c in
        record_all-enabled calls (add_cost fl u.scope_key u.cost costs) (events ++ u ∷ [])
        ∙ ap (kept true (costs_after (period scope) (c ∷ calls) costs))
            (append_assoc events u (map (usage_of fl (kept true [] [])) calls))

    pub record_all-disabled :
        (calls : List (Call C)) → record_all fl calls (kept false [] []) ≡ kept false [] []
    unfolding record_all record_usage
    record_all-disabled [] = refl
    record_all-disabled (c ∷ calls) = record_all-disabled calls
