-- ===== src/Tests/Checks.antt =====
-- The rules of Tests/Policy, checked as a policy against its pools: internal/gw/config/policy.go.
use agentgate.Base.{◌≡◌, refl, [], ◌∷◌, pos, ok}
use agentgate.Config.Types.{Pool, PoolsConfig}
use agentgate.Config.Policy.{
  validate_policy, validate_p0_action, validate_model_pool_required,
  validate_rule_model_pool_required, validate_degradation, check_capabilities, check_rules,
  compile_cel, validate_policy_against_pools, missing_default, missing_pools,
}
use agentgate.Policy.Decision.{
  Decision, route_decision, merge, merge_both, merge_primary, rank, override, append_unique,
  append_unseen, mark_seen, append_nonempty,
}
use agentgate.Policy.Engine.{
  CompiledRule, Engine, new_engine, eval_safely, fires, rule_to_decision, decide_loop, decide,
}
use agentgate.Policy.Started.{new_engine-validate_policy}
use agentgate.Policy.Declared.{IsDeclared, decide-IsDeclared}
use agentgate.Tests.Doubles.{test_cel, test_sort}
use agentgate.Tests.Policy.{eu, broken, cheap, three, policy, engine, no_input, new_engine_runs}

abbrev pool : Pool
pool = record { members = []; fallback_pool = ""; max_attempts = pos 1; timeout_ms = pos 1 }

abbrev declared_pools : PoolsConfig
declared_pools = record {
  provider_endpoints = [];
  pools =
      ("standard", pool) ∷ ("eu_pool", pool) ∷ ("cheap_pool", pool) ∷ ("broken_pool", pool) ∷ [];
}

three_valid : validate_policy test_cel (policy (cheap ∷ eu ∷ broken ∷ [])) ≡ ok tt
unfolding validate_policy validate_p0_action validate_model_pool_required
    validate_rule_model_pool_required validate_degradation check_capabilities check_rules
    compile_cel
three_valid = refl

three_declared :
    validate_policy_against_pools (λ l. l) (policy (cheap ∷ eu ∷ broken ∷ [])) declared_pools
    ≡ ok tt
unfolding validate_policy_against_pools missing_default missing_pools
three_declared = refl

new_engine-validate_policy_example :
    (e : Engine test_cel) × (new_engine test_cel
        (test_sort (CompiledRule test_cel))
        (policy (cheap ∷ eu ∷ broken ∷ []))
      ≡ ok e)
new_engine-validate_policy_example =
    new_engine-validate_policy test_cel (test_sort (CompiledRule test_cel))
      (policy (cheap ∷ eu ∷ broken ∷ [])) three_valid

abbrev cheap_decision : Decision
cheap_decision = record (route_decision "cheap_pool" ("P-eu" ∷ "P-cheap" ∷ [])) { shadow_pool = "" }

three_decided : decide test_cel (engine three) no_input ≡ ok cheap_decision
unfolding decide decide_loop fires eval_safely rule_to_decision route_decision merge merge_both
    merge_primary rank override append_unique append_unseen mark_seen append_nonempty
three_decided = refl

decide-IsDeclared_example : IsDeclared declared_pools.pools cheap_decision
decide-IsDeclared_example =
    decide-IsDeclared test_cel (test_sort (CompiledRule test_cel)) (λ l. l)
      (policy (cheap ∷ eu ∷ broken ∷ [])) declared_pools (engine three) no_input cheap_decision
      three_valid three_declared new_engine_runs three_decided
