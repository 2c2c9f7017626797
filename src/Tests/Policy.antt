-- ===== src/Tests/Policy.antt =====
-- The policy engine at a policy of three rules, of which two match: internal/gw/policy.
use agentgate.Base.{
  ℕ, ◌≡◌, refl, String, true, false, List, [], ◌∷◌, none, some, map, All, contains, ◌≤ℤ◌, pos, ok,
}
use agentgate.Config.Types.{PolicyRule, PolicyConfig}
use agentgate.External.{Descending}
use agentgate.Policy.Decision.{Decision, allow_decision, route_decision, merge, merge_both}
use agentgate.Policy.Merge.{first_of, merge_assoc, merge-strongest, merge-union}
use agentgate.Policy.Engine.{
  CompiledRule, Engine, EvalInput, compile_rule, compile_rules, new_engine, eval_safely, fires,
  decide,
}
use agentgate.Policy.Hits.{any_reason, hits}
use agentgate.Policy.Decide.{new_engine_lem, decide-matched, decide-lowest_route}
use agentgate.Tests.Doubles.{test_cel, test_sort}

abbrev private_pool : Decision
private_pool = record (route_decision "private_pool" ("P-2" ∷ [])) {
  required_trust_tier = "private";
  required_data_residency = "eu" ∷ [];
}

abbrev audited : Decision
audited = record (allow_decision ("P-1" ∷ [])) { side_effects = "audit_log" ∷ [] }

merge_assoc_example :
    merge (some audited) (merge none (some private_pool))
    ≡ merge (merge (some audited) none) (some private_pool)
merge_assoc_example = merge_assoc (some audited) none (some private_pool)

merge-strongest_example :
    (merge_both audited private_pool).primary_action
    ≡ first_of
        ("block" ∷ "require_approval" ∷ "route" ∷ "allow" ∷ "" ∷ [])
        audited.primary_action
        private_pool.primary_action
merge-strongest_example = merge-strongest audited private_pool

abbrev both : Decision
both = merge_both audited private_pool

merge-union_example :
    (contains both.modifiers "P-2" ≡ false)
    × (contains both.side_effects "P-2" ≡ false)
    × (contains both.redactions "P-2" ≡ false)
    × (contains both.reasons "P-2" ≡ true)
    × (contains both.required_data_residency "P-2" ≡ false)
    × (contains both.required_capabilities "P-2" ≡ false)
    × (contains both.degraded_features "P-2" ≡ false)
unfolding allow_decision route_decision
merge-union_example = merge-union audited private_pool "P-2"

abbrev pub rule : String → ℕ → String → String → String → PolicyRule
rule id priority when action pool = record {
  id = id;
  description = "";
  priority = pos priority;
  when = when;
  action = action;
  model_pool = pool;
  reasons = id ∷ [];
}

abbrev pub eu : PolicyRule
eu = rule "P-eu" 20 "true" "route" "eu_pool"

abbrev pub broken : PolicyRule
broken = rule "P-broken" 15 "missing.field" "route" "broken_pool"

abbrev pub cheap : PolicyRule
cheap = rule "P-cheap" 10 "true" "route" "cheap_pool"

abbrev pub policy : List PolicyRule → PolicyConfig
policy rules = record {
  version = "1";
  defaults = record {
    on_no_match = record { action = "route"; model_pool = "standard"; reasons = [] };
  };
  degradation = record { allowed_capabilities = [] };
  rules = rules;
}

abbrev pub compiled : PolicyRule → CompiledRule test_cel
compiled r = record { rule = r; ast = r.when }

abbrev pub engine : List PolicyRule → Engine test_cel
engine rules = record {
  compiled_rules = map compiled rules;
  default_action = record { action = "route"; model_pool = "standard"; reasons = [] };
}

abbrev pub three : List PolicyRule
three = eu ∷ broken ∷ cheap ∷ []

abbrev pub no_input : EvalInput test_cel
no_input = record {
  server_class = [];
  task_hints = [];
  envelope = [];
  user = [];
  team = [];
  repo = [];
  budget = [];
  endpoints = [];
}

pub new_engine_runs :
    new_engine test_cel (test_sort (CompiledRule test_cel)) (policy (cheap ∷ eu ∷ broken ∷ []))
    ≡ ok (engine three)
unfolding new_engine compile_rules compile_rule
new_engine_runs = refl

hits_none : hits test_cel tt no_input (engine (broken ∷ [])).compiled_rules ≡ []
unfolding hits fires eval_safely
hits_none = refl

hits_two : hits test_cel tt no_input (engine three).compiled_rules ≡ eu ∷ cheap ∷ []
unfolding hits fires eval_safely
hits_two = refl

decide-matched_example :
    (d : Decision) × (decide test_cel (engine three) no_input ≡ ok d)
    × ((x : String) → contains d.reasons x ≡ any_reason (eu ∷ cheap ∷ []) x)
    × (d.primary_action ≡ "route")
decide-matched_example =
    decide-matched test_cel tt refl (engine three) no_input eu (cheap ∷ []) hits_two

descending : Descending (λ c. c.rule.priority) (engine three).compiled_rules
descending =
    (new_engine_lem test_cel (test_sort (CompiledRule test_cel)) (policy (cheap ∷ eu ∷ broken ∷ []))
      (engine three) new_engine_runs).1

decide-lowest_route_example :
    (d : Decision) × (decide test_cel (engine three) no_input ≡ ok d)
    × (d.model_pool ≡ "cheap_pool")
    × All (λ s. pos 10 ≤ℤ s.priority) (eu ∷ [])
decide-lowest_route_example =
    decide-lowest_route test_cel tt refl (engine three) no_input (eu ∷ []) [] cheap descending
      hits_two refl refl tt
