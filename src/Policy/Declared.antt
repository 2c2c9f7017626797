-- ===== src/Policy/Declared.antt =====
-- Between the checks of internal/gw/config/policy.go and the engine of internal/gw/policy/engine.go: what
-- a policy that passes its checks lets the engine decide.
use agentgate.Base.{
  ◌≡◌, refl, sym, subst, ◌∙◌, String, true, false, List, [], ◌∷◌, Option, none, some, ◌==◌, Dict,
  lookup, ok, ok-injective, All, Bool-cases, Option-cases, ◌⊎◌, inl, inr,
}
use agentgate.Config.Types.{ActionSpec, PolicyRule, PolicyConfig, Pool, PoolsConfig}
use agentgate.Config.Policy.{names, validate_policy, validate_policy_against_pools}
use agentgate.Config.Policy.Valid.{
  validate_policy-IsValidRule, validate_policy_against_pools-Names, contains-names,
}
use agentgate.External.{Cel, SliceSort}
use agentgate.Policy.Decision.{
  Decision, allow_decision, route_decision, override, merge_primary, rank, merge_both, merge,
}
use agentgate.Policy.Engine.{
  CompiledRule, Engine, EvalInput, rule_to_decision, action_to_decision, or_default, fires,
  new_engine, decide_loop, decide,
}
use agentgate.Policy.Hits.{NotRoute-decision}
use agentgate.Policy.Decide.{new_engine_lem}
use agentgate.Policy.Admitted.{
  admitted, is_admitted, not_empty_pool, every-Perm, every-All, All-every, every-map, Admits,
  policy-Admits,
}

-- A decision to allow without a pool, or to route to a declared pool.
abbrev pub IsDeclared : Dict Pool → Decision → Type 0
IsDeclared pools d =
    ((d.primary_action ≡ "allow") × (d.model_pool ≡ ""))
    ⊎ ((d.primary_action ≡ "route")
        × ((pool : Pool) × (lookup d.model_pool pools ≡ some pool))
        × ((d.model_pool == "") ≡ false))

merge-IsDeclared :
    (pools : Dict Pool) (a b : Decision)
    → IsDeclared pools a
    → IsDeclared pools b
    → IsDeclared pools (merge_both a b)
unfolding merge_both override merge_primary rank
merge-IsDeclared pools a b (inl (pa, ma)) (inl (pb, mb)) = inl (rw (pa, pb), rw (ma, mb))
merge-IsDeclared pools a b (inr (pa, da, na)) (inl (pb, mb)) = inr (rw (pa, pb), rw mb da, rw mb na)
merge-IsDeclared pools a b (inl (pa, ma)) (inr (pb, db, nb)) = inr (rw (pa, pb), rw nb db, rw nb nb)
merge-IsDeclared pools a b (inr (pa, da, na)) (inr (pb, db, nb)) =
    inr (rw (pa, pb), rw nb db, rw nb nb)

rule-IsDeclared :
    (pools : Dict Pool) (r : PolicyRule)
    → admitted (names pools) r.action r.model_pool ≡ true
    → IsDeclared pools (rule_to_decision r)
unfolding rule_to_decision allow_decision route_decision
rule-IsDeclared pools r h = elim (Bool-cases (r.action == "route")) [
  | inl e ↦
      let (named, among) = not_empty_pool r.model_pool _ (rw e at h) in
      rw (e, rule_to_decision) (inr (refl, contains-names pools r.model_pool among, named))
  | inr e ↦ rw (NotRoute-decision r e) (inl (refl, refl))
]

-- The default action is read as a rule is.
default-IsDeclared :
    (pools : Dict Pool) (a : ActionSpec)
    → admitted (names pools) a.action a.model_pool ≡ true
    → IsDeclared pools (action_to_decision a)
unfolding action_to_decision allow_decision route_decision
default-IsDeclared pools a h = elim (Bool-cases (a.action == "route")) [
  | inl e ↦
      let (named, among) = not_empty_pool a.model_pool _ (rw e at h) in
      rw (e, action_to_decision) (inr (refl, contains-names pools a.model_pool among, named))
  | inr e ↦ elim (Bool-cases (a.action == "allow")) [
    | inl f ↦ rw (e, action_to_decision) (rw f (inl (refl, refl)))
    | inr f ↦ rw (e, action_to_decision) (rw f (inl (refl, refl)))
  ]
]

abbrev DeclaredOrNone : Dict Pool → Option Decision → Type 0
DeclaredOrNone pools none = Unit
DeclaredOrNone pools (some d) = IsDeclared pools d

module _ (cel : Cel) (env : cel.Env) (input : EvalInput cel) (pools : Dict Pool) where
  merge-DeclaredOrNone :
      (final : Option Decision) (d : Decision)
      → DeclaredOrNone pools final
      → IsDeclared pools d
      → DeclaredOrNone pools (merge final (some d))
  unfolding merge
  merge-DeclaredOrNone none d h k = k
  merge-DeclaredOrNone (some a) d h k = merge-IsDeclared pools a d h k

  decide_loop-Declared :
      (rules : List (CompiledRule cel)) (final : Option Decision)
      → All (λ c. Admits pools c.rule) rules
      → DeclaredOrNone pools final
      → DeclaredOrNone pools (decide_loop cel env input rules final)
  unfolding decide_loop
  decide_loop-Declared [] final h k = k
  decide_loop-Declared (cr ∷ rules) final h k = elim (Bool-cases (fires cel env input cr)) [
    | inl e ↦ rw e (
        decide_loop-Declared rules _ h.1 (
          merge-DeclaredOrNone final (rule_to_decision cr.rule) k
            (rule-IsDeclared pools cr.rule h.0)))
    | inr e ↦ rw e (decide_loop-Declared rules final h.1 k)
  ]

or_default-IsDeclared :
    (pools : Dict Pool) (a : ActionSpec) (final : Option Decision)
    → IsDeclared pools (action_to_decision a)
    → DeclaredOrNone pools final
    → IsDeclared pools (or_default a final)
or_default-IsDeclared pools a none h k = h
or_default-IsDeclared pools a (some d) h k = k

decided :
    (cel : Cel) (e : Engine cel) (input : EvalInput cel) (d : Decision) (pools : Dict Pool)
    → All (λ c. Admits pools c.rule) e.compiled_rules
    → IsDeclared pools (action_to_decision e.default_action)
    → decide cel e input ≡ ok d
    → IsDeclared pools d
unfolding decide
decided cel e input d pools compiled default run = elim (Option-cases cel.new_env) [
  | inl none_made ↦ cc (rw (none_made, decide) at run)
  | inr (env, made) ↦ subst (IsDeclared pools) (ok-injective (rw (made, decide) at run)) (
      or_default-IsDeclared pools e.default_action (decide_loop cel env input e.compiled_rules none)
        default (decide_loop-Declared cel env input pools e.compiled_rules none compiled tt))
]

-- Where a policy passes its check and the check against the pools, every decision of its engine is to
-- allow, without a pool, or to route to a pool that is named and declared.
pub decide-IsDeclared :
    (cel : Cel) (sorter : SliceSort (CompiledRule cel)) (sort_strings : List String → List String)
    (policy : PolicyConfig) (pools : PoolsConfig) (e : Engine cel) (input : EvalInput cel)
    (d : Decision)
    → validate_policy cel policy ≡ ok tt
    → validate_policy_against_pools sort_strings policy pools ≡ ok tt
    → new_engine cel sorter policy ≡ ok e
    → decide cel e input ≡ ok d
    → IsDeclared pools.pools d
decide-IsDeclared cel sorter sort_strings policy pools e input d valid declared started run =
    let (default_valid, rules_valid) = validate_policy-IsValidRule cel policy valid in
    let (default_named, rules_named) =
      validate_policy_against_pools-Names sort_strings policy pools declared in
    let (same, _, default_same) = new_engine_lem cel sorter policy e started in
    let admits = policy-Admits pools.pools cel policy.rules rules_valid rules_named in
    let test = λ (r : PolicyRule). admitted (names pools.pools) r.action r.model_pool in
    let compiled : All (λ c. Admits pools.pools c.rule) e.compiled_rules =
      All-every (λ c. test c.rule) e.compiled_rules
        (sym (every-map cel test e.compiled_rules)
          ∙ every-Perm test same
          ∙ every-All test policy.rules admits) in
    decided cel e input d pools.pools compiled
      (rw default_same (
        default-IsDeclared pools.pools policy.defaults.on_no_match
          (is_admitted (names pools.pools) _ _ default_valid default_named)))
      run
