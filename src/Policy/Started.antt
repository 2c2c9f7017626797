-- ===== src/Policy/Started.antt =====
-- A policy that passes the check of internal/gw/config/policy.go compiles in NewEngine of
-- internal/gw/policy/engine.go.

use agentgate.Base.{ℕ, ◌+◌, ◌≡◌, refl, List, [], ◌∷◌, ok, All, Option-cases, inl, inr}
use agentgate.Config.Types.{PolicyRule, PolicyConfig}
use agentgate.Config.Policy.{compile_cel, validate_policy}
use agentgate.Config.Policy.Valid.{IsValidRule, validate_policy-IsValidRule}
use agentgate.External.{Cel, SliceSort}
use agentgate.Policy.Engine.{
  CompiledRule, Engine, compile_rule, compile_rules, by_priority, new_engine,
}

module _ (cel : Cel) where
  compile_rule-ok :
      (i : ℕ) (r : PolicyRule)
      → IsValidRule cel r
      → (c : CompiledRule cel) × (compile_rule cel i r ≡ ok c)
  unfolding compile_rule compile_cel
  compile_rule-ok i r (_, (ast, parsed)) = elim (Option-cases cel.new_env) [
    | inl e ↦ cc (rw e at parsed)
    | inr (env, e) ↦
        (record { rule = r; ast = ast }, rw (e, compile_rule) (rw (rw (e, compile_cel) at parsed)))
  ]

  compile_rules-ok :
      (i : ℕ) (rules : List PolicyRule)
      → All (IsValidRule cel) rules
      → (cs : List (CompiledRule cel)) × (compile_rules cel i rules ≡ ok cs)
  unfolding compile_rules
  compile_rules-ok i [] h = ([], refl)
  compile_rules-ok i (r ∷ rules) h =
      let (c, hc) = compile_rule-ok i r h.0 in
      let (cs, hs) = compile_rules-ok (i + 1) rules h.1 in (c ∷ cs, rw hc (rw hs))

  -- A policy that passes its check starts an engine.
  pub new_engine-validate_policy :
      (sorter : SliceSort (CompiledRule cel)) (cfg : PolicyConfig)
      → validate_policy cel cfg ≡ ok tt
      → (e : Engine cel) × (new_engine cel sorter cfg ≡ ok e)
  unfolding new_engine
  new_engine-validate_policy sorter cfg h =
      let (cs, hs) = compile_rules-ok 0 cfg.rules (validate_policy-IsValidRule cel cfg h).1 in
      (
        record {
          compiled_rules = sorter.sort (by_priority cel) cs;
          default_action = cfg.defaults.on_no_match;
        },
        rw (hs, new_engine),
      )
