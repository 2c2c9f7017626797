-- ===== src/Config/Policy/Valid.antt =====
-- What a policy that passes the checks of internal/gw/config/policy.go guarantees.
use text.Mathlib.Text.{starts_with}
use agentgate.Base.{
  ℕ, ◌+◌, ◌≡◌, refl, String, Bool, true, false, not, ◌&&◌, List, [], ◌∷◌, Option, none, some, ◌==◌,
  Dict, lookup, contains, ok, >>=-eq-ok, reject-eq-ok, wrap-eq-ok, All, Bool-cases, inl, inr, arith,
}
use agentgate.Config.Types.{ActionSpec, PolicyRule, PolicyConfig, PoolsConfig}
use agentgate.External.{Cel}
use agentgate.Config.Policy.{
  version_required, default_action_required, bad_default, id_required, id_without_prefix,
  when_required, bad_action, rule_spec, valid_p0_actions, validate_p0_action,
  validate_model_pool_required, validate_rule_model_pool_required, validate_degradation,
  compile_cel, check_expression, check_rules, validate_policy, names, missing_default, missing_rule,
  missing_pools, validate_policy_against_pools, undeclared,
}

-- The action is route or allow, and a route names a pool.
abbrev pub IsAllowed : String → String → Type 0
IsAllowed action model_pool =
    (contains valid_p0_actions action ≡ true)
    × (((action == "route") && (model_pool == "")) ≡ false)

is_true : (b : Bool) → not b ≡ false → b ≡ true
is_true b h = ground arith

p0-eq-ok :
    (action : String) → validate_p0_action action ≡ ok tt → contains valid_p0_actions action ≡ true
unfolding validate_p0_action
p0-eq-ok action h = ground arith

pool-eq-ok :
    (a : ActionSpec)
    → validate_model_pool_required a ≡ ok tt
    → ((a.action == "route") && (a.model_pool == "")) ≡ false
unfolding validate_model_pool_required
pool-eq-ok a h = ground arith

module _ (cel : Cel) where
  -- The rule's action is allowed, and its expression compiles.
  abbrev pub IsValidRule : PolicyRule → Type 0
  IsValidRule r =
      IsAllowed r.action r.model_pool × ((a : cel.Ast) × (compile_cel cel r.when ≡ some a))

  expression-eq-ok :
      (i : ℕ) (id : String) (ast : Option cel.Ast)
      → check_expression cel i id ast ≡ ok tt
      → (a : cel.Ast) × (ast ≡ some a)
  expression-eq-ok i id none h = cc
  expression-eq-ok i id (some a) h = (a, refl)

  check_rules-IsValidRule :
      (i : ℕ) (rules : List PolicyRule) → check_rules cel i rules ≡ ok tt → All IsValidRule rules
  unfolding check_rules validate_rule_model_pool_required
  check_rules-IsValidRule i [] h = tt
  check_rules-IsValidRule i (r ∷ rules) h =
      let (_, h₁) = reject-eq-ok (r.id == "") (id_required i) _ h in
      let (_, h₂) = reject-eq-ok (not (starts_with r.id "P-")) (id_without_prefix i r.id) _ h₁ in
      let (_, h₃) = reject-eq-ok (r.when == "") (when_required i r.id) _ h₂ in
      let (p0, h₄) = wrap-eq-ok (bad_action i r.id) (validate_p0_action r.action) _ h₃ in
      let (pool, h₅) =
        wrap-eq-ok (bad_action i r.id) (validate_model_pool_required (rule_spec r)) _ h₄ in
      let (done, parsed, h₆) =
        >>=-eq-ok (check_expression cel i r.id (compile_cel cel r.when))
          (λ _. check_rules cel (i + 1) rules) h₅ in
      (
        (
          (p0-eq-ok r.action p0, pool-eq-ok (rule_spec r) pool),
          expression-eq-ok i r.id (compile_cel cel r.when) parsed,
        ),
        check_rules-IsValidRule (i + 1) rules h₆,
      )

  pub validate_policy-IsValidRule :
      (c : PolicyConfig)
      → validate_policy cel c ≡ ok tt
      → IsAllowed c.defaults.on_no_match.action c.defaults.on_no_match.model_pool
        × All IsValidRule c.rules
  unfolding validate_policy
  validate_policy-IsValidRule c h =
      let a = c.defaults.on_no_match in
      let (_, h₁) = reject-eq-ok (c.version == "") version_required _ h in
      let (_, h₂) = reject-eq-ok (a.action == "") default_action_required _ h₁ in
      let (p0, h₃) = wrap-eq-ok bad_default (validate_p0_action a.action) _ h₂ in
      let (pool, h₄) = wrap-eq-ok bad_default (validate_model_pool_required a) _ h₃ in
      let (done, degraded, h₅) =
        >>=-eq-ok (validate_degradation c.degradation) (λ _. check_rules cel 0 c.rules) h₄ in
      ((p0-eq-ok a.action p0, pool-eq-ok a pool), check_rules-IsValidRule 0 c.rules h₅)

  pub validate_policy-degradation :
      (c : PolicyConfig)
      → validate_policy cel c ≡ ok tt
      → validate_degradation c.degradation ≡ ok tt
  unfolding validate_policy
  validate_policy-degradation c h =
      let a = c.defaults.on_no_match in
      let (_, h₁) = reject-eq-ok (c.version == "") version_required _ h in
      let (_, h₂) = reject-eq-ok (a.action == "") default_action_required _ h₁ in
      let (p0, h₃) = wrap-eq-ok bad_default (validate_p0_action a.action) _ h₂ in
      let (pool, h₄) = wrap-eq-ok bad_default (validate_model_pool_required a) _ h₃ in
      let (done, degraded, h₅) =
        >>=-eq-ok (validate_degradation c.degradation) (λ _. check_rules cel 0 c.rules) h₄ in
      degraded

pub contains-names :
    {V : Type 0} (m : Dict V) (name : String)
    → contains (names m) name ≡ true
    → (v : V) × (lookup name m ≡ some v)
contains-names [] name h = cc
contains-names ((key, v) ∷ m) name h = elim (Bool-cases (key == name)) [
  | inl e ↦ (v, rw e)
  | inr e ↦ rw e (contains-names m name (rw e at h))
]

-- Where the rule routes to a pool, the pool is among the names.
abbrev pub Names : List String → String → String → Type 0
Names pool_names action model_pool =
    ((action == "route") ≡ true)
    → (model_pool == "") ≡ false
    → contains pool_names model_pool ≡ true

missing_rule-nil :
    (pool_names missing : List String) (action model_pool : String)
    → missing_rule pool_names missing action model_pool ≡ []
    → (missing ≡ []) × Names pool_names action model_pool
missing_rule-nil pool_names [] action model_pool h = (refl, λ route named. ground arith)
missing_rule-nil pool_names (mp ∷ missing) action model_pool h = ground arith

missing_pools-nil :
    (pool_names : List String) (rules : List PolicyRule) (missing : List String)
    → missing_pools pool_names missing rules ≡ []
    → (missing ≡ []) × All (λ r. Names pool_names r.action r.model_pool) rules
unfolding missing_pools
missing_pools-nil pool_names [] missing h = (h, tt)
missing_pools-nil pool_names (r ∷ rules) missing h =
    let after = missing_rule pool_names missing r.action r.model_pool in
    let (kept, rest) = missing_pools-nil pool_names rules after h in
    let (before, named) = missing_rule-nil pool_names missing r.action r.model_pool kept in
    (before, (named, rest))

default-nil :
    (pool_names : List String) (a : ActionSpec)
    → missing_default pool_names a ≡ []
    → Names pool_names a.action a.model_pool
unfolding missing_default
default-nil pool_names a h = λ route named. ground arith

undeclared-ok :
    (sort_strings : List String → List String) (missing : List String)
    → undeclared sort_strings missing ≡ ok tt
    → missing ≡ []
undeclared-ok sort_strings [] h = refl
undeclared-ok sort_strings (mp ∷ missing) h = cc

-- A policy that passes the check against the pools routes to declared pools only.
pub validate_policy_against_pools-Names :
    (sort_strings : List String → List String) (policy : PolicyConfig) (pools : PoolsConfig)
    → validate_policy_against_pools sort_strings policy pools ≡ ok tt
    → let declared = names pools.pools in
      Names declared policy.defaults.on_no_match.action policy.defaults.on_no_match.model_pool
      × All (λ r. Names declared r.action r.model_pool) policy.rules
unfolding validate_policy_against_pools
validate_policy_against_pools-Names sort_strings policy pools h =
    let declared = names pools.pools in
    let found =
      missing_pools declared (missing_default declared policy.defaults.on_no_match) policy.rules in
    let (none_first, all) =
      missing_pools-nil declared policy.rules (missing_default declared policy.defaults.on_no_match)
        (undeclared-ok sort_strings found h) in
    (default-nil declared policy.defaults.on_no_match none_first, all)
