-- ===== src/Pipeline/IngressRun.antt =====
-- Run of internal/gw/server/ingress_pipeline.go, put together.
use agentgate.Base.{
  ℕ, pos, String, Bool, false, Option, none, some, List, [], ◌∷◌, Dict, Result, ok, err,
}
use agentgate.Classify.Server.{reclassify}
use agentgate.Config.Loaded.{GatewayConfig}
use agentgate.External.{Cel, Random, Sha256, JsonMaps}
use agentgate.Policy.Capability.{Parser}
use agentgate.Policy.Decision.{Decision}
use agentgate.Policy.Engine.{Engine, EvalInput, decide}
use agentgate.Provider.Request.{ProviderRequest, Answer, Adapter}
use agentgate.Routing.Constraints.{Member}
use agentgate.Routing.Selector.{RoutingError, Selector, build_chain}
use agentgate.Transformer.Anthropic.{AnthropicRequest}
use agentgate.Pipeline.Egress.{routing_no_candidate, decision_made}
use agentgate.Pipeline.EgressRun.{egress_run}
use agentgate.Pipeline.Ingress.{
  policy_evaluate, routing_build_chain, panicked, ForwardRequest, Reads, IngressRun,
  allowed_capabilities, key_of, pool_or_standard, require_capabilities, stopped, respond,
  with_audit,
}

-- `any` makes a dynamic value of a text, and `to_lower` is strings.ToLower.
module _ (cel : Cel) (any : String → cel.Any) (to_lower : String → String) where
  -- The input of the policy, for a request with this identity. The body is not classified.
  unfoldable pub policy_input : {Raw Body : Type 0} → ForwardRequest Raw Body → EvalInput cel
  policy_input req =
      let tag = reclassify to_lower [] "" 0 0 false false in
      record {
        server_class = [];
        task_hints =
            ("task_type", any tag.task_type)
            ∷ ("complexity", any tag.complexity)
            ∷ ("data_sensitivity", any tag.data_sensitivity)
            ∷ [];
        envelope = [];
        user =
            ("user_id", any req.user_id)
            ∷ ("team_id", any req.team_id)
            ∷ ("role", any req.role)
            ∷ [];
        team = [];
        repo = [];
        budget = [];
        endpoints = [];
      }

module _ (json : JsonMaps) (random : Random) (sha : Sha256) {F Body : Type 0}
    (adapters : Dict Adapter) (answers : ℕ → ProviderRequest F json.Raw json.Map → Answer Body)
    (trace_id : String) (has_cost_writer reserved : Bool)
    (body : Option (AnthropicRequest F json.Raw json.Map)) where
  abbrev pub run_egress :
      Selector F
      → Decision
      → Member
      → Option (GatewayConfig F)
      → IngressRun (ProviderRequest F json.Raw json.Map) Body
  run_egress egress_selector dec m none = stopped [] panicked
  run_egress egress_selector dec m (some cfg) =
      respond has_cost_writer reserved m (pool_or_standard dec.model_pool) dec (
        egress_run json random sha adapters trace_id (pool_or_standard dec.model_pool) (pos 1) body
          (key_of cfg m) answers egress_selector (some dec))

  abbrev pub with_members :
      Selector F
      → Option (GatewayConfig F)
      → Decision
      → Result RoutingError (List Member)
      → IngressRun (ProviderRequest F json.Raw json.Map) Body
  with_members egress_selector key_config dec (err e) =
      stopped (routing_no_candidate ∷ []) (routing_build_chain e)
  with_members egress_selector key_config dec (ok []) = stopped [] panicked
  with_members egress_selector key_config dec (ok (m ∷ ms)) =
      run_egress egress_selector dec m key_config

  -- From the decision with its capabilities on.
  unfoldable pub route :
      Selector F
      → Selector F
      → Option (GatewayConfig F)
      → Decision
      → IngressRun (ProviderRequest F json.Raw json.Map) Body
  route selector egress_selector key_config dec = with_members egress_selector key_config dec (
      build_chain random sha selector (pool_or_standard dec.model_pool) (some dec) trace_id (pos 1))

module _ (cel : Cel) (any : String → cel.Any) (to_lower : String → String) (parser : Parser)
    (json : JsonMaps) (random : Random) (sha : Sha256) {F Body : Type 0} (adapters : Dict Adapter)
    (answers : ℕ → ProviderRequest F json.Raw json.Map → Answer Body) (trace_id : String)
    (has_cost_writer reserved : Bool) where
  unfoldable pub ingress_run :
      Reads (Engine cel) F
      → ForwardRequest parser.Raw (AnthropicRequest F json.Raw json.Map)
      → IngressRun (ProviderRequest F json.Raw json.Map) Body
  ingress_run reads req = elim (decide cel reads.engine (policy_input cel any to_lower req)) [
    | err e ↦ stopped (routing_no_candidate ∷ []) (policy_evaluate e)
    | ok dec ↦ with_audit (decision_made ∷ []) (
        route json random sha adapters answers trace_id has_cost_writer reserved req.body
          reads.selector reads.egress_selector reads.key_config
          (require_capabilities parser req (allowed_capabilities reads.policy_config) dec))
  ]
