-- ===== src/Config/Policy.antt =====
-- The checks of a policy: Validate and ValidatePolicyAgainstPools of internal/gw/config/policy.go.
-- Reading the file and parsing YAML are left to the caller. The environment of compileCEL declares the
-- variables that the policy engine declares, so `new_env` is the same.
pub mod Valid
use text.Mathlib.Text.{starts_with}
use agentgate.Base.{
  ℕ, ◌+◌, String, Bool, true, false, not, ◌&&◌, List, [], ◌∷◌, ◌++◌, Option, none, some, ◌==◌, Dict,
  contains, if◌then◌else◌, Result, ok, err, ◌>>=◌, ◌>>◌, reject, wrap,
}
use agentgate.Config.Types.{
  DegradationConfig, ActionSpec, PolicyRule, PolicyConfig, Pool, PoolsConfig,
}
use agentgate.External.{Cel}

pub data ActionError : Type 0 where
  not_in_p0 pool_required : String → ActionError

-- The index of a rule, and its id.
pub data PolicyError : Type 0 where
  version_required default_action_required : PolicyError
  bad_default : ActionError → PolicyError
  not_degradable : String → PolicyError
  id_required : ℕ → PolicyError
  id_without_prefix when_required bad_expression : ℕ → String → PolicyError
  bad_action : ℕ → String → ActionError → PolicyError

abbrev pub valid_p0_actions : List String
valid_p0_actions = "route" ∷ "allow" ∷ []

unfoldable pub validate_p0_action : String → Result ActionError (Unit {0})
validate_p0_action action = reject (not (contains valid_p0_actions action)) (not_in_p0 action)

unfoldable pub validate_model_pool_required : ActionSpec → Result ActionError (Unit {0})
validate_model_pool_required a =
    reject ((a.action == "route") && (a.model_pool == "")) (pool_required a.action)

abbrev pub rule_spec : PolicyRule → ActionSpec
rule_spec r = record { action = r.action; model_pool = r.model_pool; reasons = [] }

unfoldable pub validate_rule_model_pool_required : PolicyRule → Result ActionError (Unit {0})
validate_rule_model_pool_required r = validate_model_pool_required (rule_spec r)

abbrev pub valid_degradable_capabilities : List String
valid_degradable_capabilities = "cache_control" ∷ "extended_thinking" ∷ []

unfoldable pub check_capabilities : List String → Result PolicyError (Unit {0})
check_capabilities [] = ok tt
check_capabilities (cap ∷ caps) = do
  reject (not (contains valid_degradable_capabilities cap)) (not_degradable cap)
  check_capabilities caps

unfoldable pub validate_degradation : DegradationConfig → Result PolicyError (Unit {0})
validate_degradation d = check_capabilities d.allowed_capabilities

module _ (cel : Cel) where
  open cel use {new_env, compile, Ast}

  unfoldable pub compile_cel : String → Option Ast
  compile_cel expr = elim new_env [ none ↦ none | some env ↦ compile env expr ]

  abbrev pub check_expression : ℕ → String → Option Ast → Result PolicyError (Unit {0})
  check_expression i id none = err (bad_expression i id)
  check_expression i id (some ast) = ok tt

  -- The loop over the rules, from rule `i` on.
  unfoldable pub check_rules : ℕ → List PolicyRule → Result PolicyError (Unit {0})
  check_rules i [] = ok tt
  check_rules i (r ∷ rules) = do
    reject (r.id == "") (id_required i)
    reject (not (starts_with r.id "P-")) (id_without_prefix i r.id)
    reject (r.when == "") (when_required i r.id)
    wrap (bad_action i r.id) (validate_p0_action r.action)
    wrap (bad_action i r.id) (validate_rule_model_pool_required r)
    check_expression i r.id (compile_cel r.when)
    check_rules (i + 1) rules

  unfoldable pub validate_policy : PolicyConfig → Result PolicyError (Unit {0})
  validate_policy c = do
    reject (c.version == "") version_required
    reject (c.defaults.on_no_match.action == "") default_action_required
    wrap bad_default (validate_p0_action c.defaults.on_no_match.action)
    wrap bad_default (validate_model_pool_required c.defaults.on_no_match)
    validate_degradation c.degradation
    check_rules 0 c.rules

-- `poolNames`
abbrev pub names {ℓ} : {V : Type ℓ} → Dict V → List String
names [] = []
names ((name, val) ∷ m) = name ∷ names m

-- `missingPools[mp] = true`
abbrev pub mark : List String → String → List String
mark missing mp = if contains missing mp then missing else missing ++ mp ∷ []

unfoldable pub missing_default : List String → ActionSpec → List String
missing_default pool_names a =
    if a.action == "route"
    then if not (a.model_pool == "") && not (contains pool_names a.model_pool)
      then mark [] a.model_pool
      else []
    else []

-- One round of the loop over the rules.
abbrev pub missing_rule : List String → List String → String → String → List String
missing_rule pool_names missing action model_pool =
    if (action == "route") && not (model_pool == "")
    then if not (contains pool_names model_pool) then mark missing model_pool else missing
    else missing

unfoldable pub missing_pools : List String → List String → List PolicyRule → List String
missing_pools pool_names missing [] = missing
missing_pools pool_names missing (r ∷ rules) =
    missing_pools pool_names (missing_rule pool_names missing r.action r.model_pool) rules

abbrev pub undeclared : (List String → List String) → List String → Result (List String) (Unit {0})
undeclared sort_strings [] = ok tt
undeclared sort_strings (mp ∷ missing) = err (sort_strings (mp ∷ missing))

-- The error is the list of the missing pools, which `sort.Strings` has sorted.
unfoldable pub validate_policy_against_pools :
    (List String → List String) → PolicyConfig → PoolsConfig → Result (List String) (Unit {0})
validate_policy_against_pools sort_strings policy pools =
    let pool_names = names pools.pools in
    undeclared sort_strings (
      missing_pools pool_names (missing_default pool_names policy.defaults.on_no_match)
        policy.rules)
