-- ===== src/Policy/Engine.antt =====
-- The policy engine: internal/gw/policy/engine.go. The CEL library and the sort are parameters.
-- A compiled rule holds the rule that its Go pointer names. The lock makes a swap of the engine's
-- two fields, and a read of both, one step.
use agentgate.Base.{
  ℕ, ◌+◌, String, Bool, false, List, [], ◌∷◌, Option, none, some, ltb_ℤ, Dict, ◌==◌, if◌then◌else◌,
  Result, ok, err, ◌>>=◌,
}
use agentgate.Config.Types.{ActionSpec, PolicyRule, PolicyConfig}
use agentgate.External.{Cel, panicked, failed, not_bool, value, SliceSort}
use agentgate.Policy.Decision.{Decision, allow_decision, route_decision, merge}

-- The index and the id of the rule that fails.
pub data EngineError : Type 0 where
  create_env cel_compile : ℕ → String → EngineError
  eval_env : EngineError

unfoldable pub rule_to_decision : PolicyRule → Decision
rule_to_decision r =
    if r.action == "route"
    then route_decision r.model_pool r.reasons
    else if r.action == "allow"
    then allow_decision r.reasons
    else allow_decision r.reasons

unfoldable pub action_to_decision : ActionSpec → Decision
action_to_decision a =
    if a.action == "route"
    then route_decision a.model_pool a.reasons
    else if a.action == "allow"
    then allow_decision a.reasons
    else allow_decision a.reasons

-- `if finalDecision == nil`
abbrev pub or_default : ActionSpec → Option Decision → Decision
or_default a none = action_to_decision a
or_default a (some d) = d

module _ (cel : Cel) where
  open cel use {Env, Ast, Program, Any, new_env, compile, program, eval}

  pub record CompiledRule : Type 0 where
    pub rule : PolicyRule
    pub ast : Ast

  pub record Engine : Type 0 where
    pub compiled_rules : List CompiledRule
    pub default_action : ActionSpec

  pub record EvalInput : Type 0 where
    pub server_class : Dict Any
    pub task_hints : Dict Any
    pub envelope : Dict Any
    pub user : Dict Any
    pub team : Dict Any
    pub repo : Dict Any
    pub budget : Dict Any
    pub endpoints : Dict Any

  unfoldable pub compile_rule : ℕ → PolicyRule → Result EngineError CompiledRule
  compile_rule i r = elim new_env [
    | none ↦ err (create_env i r.id)
    | some env ↦ elim (compile env r.when) [
      | none ↦ err (cel_compile i r.id)
      | some a ↦ ok (record { rule = r; ast = a })
    ]
  ]

  -- The loop of SetPolicy and of NewEngine, from rule `i` on.
  unfoldable pub compile_rules : ℕ → List PolicyRule → Result EngineError (List CompiledRule)
  compile_rules i [] = ok []
  compile_rules i (r ∷ rules) = do
    c ← compile_rule i r
    rest ← compile_rules (i + 1) rules
    ok (c ∷ rest)

  abbrev pub by_priority : CompiledRule → CompiledRule → Bool
  by_priority a b = ltb_ℤ b.rule.priority a.rule.priority

  module _ (sorter : SliceSort CompiledRule) where
    -- The receiver after the call, and the error. A failure leaves the receiver as it was.
    unfoldable pub set_policy : Engine → PolicyConfig → Engine × Option EngineError
    set_policy e cfg = elim (compile_rules 0 cfg.rules) [
      | err x ↦ (e, some x)
      | ok compiled ↦ (
        record {
          compiled_rules = sorter.sort by_priority compiled;
          default_action = cfg.defaults.on_no_match;
        },
        none,
      )
    ]

    unfoldable pub new_engine : PolicyConfig → Result EngineError (Engine)
    new_engine cfg = do
      compiled ← compile_rules 0 cfg.rules
      ok (record {
        compiled_rules = sorter.sort by_priority compiled;
        default_action = cfg.defaults.on_no_match;
      })

  unfoldable pub eval_safely : Program → Dict (Dict Any) → Bool
  eval_safely prog vars = elim (eval prog vars) [
    | panicked ↦ false
    | failed ↦ false
    | not_bool ↦ false
    | value b ↦ b
  ]

  unfoldable pub variables : EvalInput → Dict (Dict Any)
  variables input =
      ("server_class", input.server_class)
      ∷ ("task_hints", input.task_hints)
      ∷ ("envelope", input.envelope)
      ∷ ("user", input.user)
      ∷ ("team", input.team)
      ∷ ("repo", input.repo)
      ∷ ("budget", input.budget)
      ∷ ("endpoints", input.endpoints)
      ∷ []

  -- Whether the body of the loop of Decide reaches the merge.
  unfoldable pub fires : Env → EvalInput → CompiledRule → Bool
  fires env input cr = elim (program env cr.ast) [
    | none ↦ false
    | some prog ↦ eval_safely prog (variables input)
  ]

  unfoldable pub decide_loop :
      Env → EvalInput → List CompiledRule → Option Decision → Option Decision
  decide_loop env input [] final = final
  decide_loop env input (cr ∷ rules) final =
      decide_loop env input rules
        (if fires env input cr then merge final (some (rule_to_decision cr.rule)) else final)

  unfoldable pub decide : Engine → EvalInput → Result EngineError Decision
  decide e input = elim new_env [
    | none ↦ err eval_env
    | some env ↦ ok (or_default e.default_action (decide_loop env input e.compiled_rules none))
  ]
