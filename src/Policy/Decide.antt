-- ===== src/Policy/Decide.antt =====
-- What the engine of internal/gw/policy/engine.go decides, and what a reload leaves behind.
use mathlib.Core.List.{Perm}
use mathlib.Core.List.Perm
use agentgate.Base.{
  ℕ, ◌+◌, String, true, false, List, [], ◌∷◌, ◌++◌, none, some, ◌≡◌, refl, ap, ap₂, subst, ◌∙◌, map,
  contains, ◌==◌, All, ◌≤ℤ◌, ok, err, >>=-eq-ok, ok-injective, Result-cases, inl, inr, arith,
}
use agentgate.Config.Types.{PolicyRule, PolicyConfig}
use agentgate.External.{Cel, Descending, SliceSort}
use agentgate.Policy.Decision.{Decision}
use agentgate.Policy.Engine.{
  CompiledRule, Engine, EvalInput, rule_to_decision, action_to_decision, compile_rule,
  compile_rules, set_policy, new_engine, or_default, by_priority, decide,
}
use agentgate.Policy.Hits.{
  is_route, any_route, any_reason, NotRoute, route_or_allow, merge_rules, merged, hits,
  decide_loop-hits, hits-Descending, rule_reasons, reasons-merge_rules, merged_pool,
  Descending-before, rule_primary, primary-merge_rules,
}

-- Compiling keeps the rules and their order.
compile_rule-rule :
    (cel : Cel) (i : ℕ) (r : PolicyRule) {c : CompiledRule cel}
    → compile_rule cel i r ≡ ok c
    → c.rule ≡ r
unfolding compile_rule
compile_rule-rule cel i r h = ground arith

compile_rules-rules :
    (cel : Cel) (i : ℕ) (rules : List PolicyRule) (cs : List (CompiledRule cel))
    → compile_rules cel i rules ≡ ok cs
    → map (λ c. c.rule) cs ≡ rules
unfolding compile_rules
compile_rules-rules cel i [] cs h = rw (← ok-injective h)
compile_rules-rules cel i (r ∷ rules) cs h =
    let (c, hc, k) = >>=-eq-ok (compile_rule cel i r) _ h in
    let (rest, hr, e) = >>=-eq-ok (compile_rules cel (i + 1) rules) _ k in
    rw (← ok-injective e) (
      ap₂ (λ a b. a ∷ b) (compile_rule-rule cel i r hc)
        (compile_rules-rules cel (i + 1) rules rest hr))

module _ (cel : Cel) (sorter : SliceSort (CompiledRule cel)) where
  -- A reload gives the engine that a start with the same policy gives; where the policy does not
  -- compile, both fail with the same error, and the reload keeps the engine that runs.
  pub set_policy-new_engine :
      (e : Engine cel) (cfg : PolicyConfig)
      → set_policy cel sorter e cfg
        ≡ (elim (new_engine cel sorter cfg) [ ok e' ↦ (e', none) | err x ↦ (e, some x) ])
  unfolding set_policy new_engine
  set_policy-new_engine e cfg = elim (Result-cases (compile_rules cel 0 cfg.rules)) [
    | inl (x, p) ↦ rw (p, set_policy)
    | inr (cs, p) ↦ rw (p, set_policy)
  ]

  -- A new engine holds the rules of the policy, each as often, in descending priority, and the
  -- policy's default action.
  pub new_engine_lem :
      (cfg : PolicyConfig) (e : Engine cel)
      → new_engine cel sorter cfg ≡ ok e
      → Perm (map (λ c. c.rule) e.compiled_rules) cfg.rules
        × Descending (λ c. c.rule.priority) e.compiled_rules
        × (e.default_action ≡ cfg.defaults.on_no_match)
  unfolding new_engine
  new_engine_lem cfg e h =
      let (cs, hc, k) = >>=-eq-ok (compile_rules cel 0 cfg.rules) _ h in
      let same = ok-injective k in
      rw (← same) (
        rw (← compile_rules-rules cel 0 cfg.rules cs hc)
            (Perm.map (λ c. c.rule) (sorter.sort-perm (by_priority cel) cs)),
        sorter.sort-Descending (λ c. c.rule.priority) cs,
        refl,
      )

-- CEL's environment is created: the case in which Decide returns a decision.
module _ (cel : Cel) (env : cel.Env) (made : cel.new_env ≡ some env) where
  decide-hits :
      (e : Engine cel) (input : EvalInput cel)
      → decide cel e input
        ≡ ok (or_default e.default_action (merged (hits cel env input e.compiled_rules)))
  unfolding decide
  decide-hits e input = rw (made, decide) (rw (decide_loop-hits cel env input e.compiled_rules))

  -- Where no rule matches, the decision is that of the policy's default action.
  pub decide-default :
      (e : Engine cel) (input : EvalInput cel)
      → hits cel env input e.compiled_rules ≡ []
      → decide cel e input ≡ ok (action_to_decision e.default_action)
  unfolding merged
  decide-default e input h = decide-hits e input ∙ rw h

  -- Where rules match, there is a decision: its reasons are those of the matching rules, and its
  -- primary action is route if one of them is a route, else allow.
  pub decide-matched :
      (e : Engine cel) (input : EvalInput cel) (r : PolicyRule) (rs : List PolicyRule)
      → hits cel env input e.compiled_rules ≡ r ∷ rs
      → (d : Decision) × (decide cel e input ≡ ok d)
        × ((x : String) → contains d.reasons x ≡ any_reason (r ∷ rs) x)
        × (d.primary_action ≡ route_or_allow (any_route (r ∷ rs)))
  unfolding merged
  decide-matched e input r rs h = (
    merge_rules (rule_to_decision r) rs,
    decide-hits e input ∙ rw h,
    λ x. reasons-merge_rules (rule_to_decision r) rs x ∙ rw (rule_reasons r),
    primary-merge_rules (rule_to_decision r) rs (is_route r) (rule_primary r),
  )

  -- In an engine whose rules descend in priority, the pool of the decision is that of the last
  -- matching route with a pool, and no route that matches before it has a smaller priority.
  pub decide-lowest_route :
      (e : Engine cel) (input : EvalInput cel) (before after : List PolicyRule) (r : PolicyRule)
      → Descending (λ c. c.rule.priority) e.compiled_rules
      → hits cel env input e.compiled_rules ≡ before ++ r ∷ after
      → is_route r ≡ true
      → (r.model_pool == "") ≡ false
      → All NotRoute after
      → (d : Decision) × (decide cel e input ≡ ok d)
        × (d.model_pool ≡ r.model_pool)
        × All (λ s. r.priority ≤ℤ s.priority) before
  unfolding merged
  decide-lowest_route e input before after r sorted h route pool rest =
      let (d, m, p) = merged_pool before after r route pool rest in
      (
        d,
        decide-hits e input ∙ rw h (ap (λ o. ok (or_default e.default_action o)) m),
        p,
        Descending-before (λ s. s.priority) before r after
            (subst (Descending (λ s. s.priority)) h
              (hits-Descending cel env input e.compiled_rules sorted)),
      )
