-- ===== src/Pipeline/Served.antt =====
-- What Run of internal/gw/server/ingress_pipeline.go does with a request: under a reload in between,
-- without one, and with a configuration that passes the checks of internal/gw/config.
use agentgate.Base.{
  ℕ, ◌≤◌, ◌≡◌, refl, subst, String, Bool, some, List, [], ◌∷◌, ◌==◌, Dict, length, All, Bool-cases,
  Result-cases, inl, inr, ◌⊎◌, ok, err,
}
use agentgate.Config.Loaded.{GatewayConfig}
use agentgate.External.{Cel, Random, Sha256, JsonMaps}
use agentgate.Policy.Capability.{Parser}
use agentgate.Policy.Decision.{Decision}
use agentgate.Policy.Engine.{Engine, EngineError, decide}
use agentgate.Provider.Request.{ProviderRequest, Answer, Adapter}
use agentgate.Routing.Constraints.{Member}
use agentgate.Transformer.Anthropic.{AnthropicRequest}
use agentgate.Pipeline.Egress.{routing_no_candidate, decision_made}
use agentgate.Pipeline.Calls.{IsFor}
use agentgate.Pipeline.Ingress.{
  policy_evaluate, ForwardRequest, Reads, IngressRun, allowed_capabilities, key_of,
  require_capabilities, stopped, with_audit,
}
use agentgate.Pipeline.IngressRun.{policy_input, route, ingress_run}
use agentgate.Pipeline.Routed.{IsRefused, RoutedTo, IsHead, head_unique, IsRouted, route-IsRouted}

pub require_capabilities-model_pool :
    {Body : Type 0} (parser : Parser) (req : ForwardRequest parser.Raw Body) (allowed : List String)
    (dec : Decision)
    → (require_capabilities parser req allowed dec).model_pool ≡ dec.model_pool
unfolding require_capabilities
require_capabilities-model_pool parser req allowed dec =
    elim (Bool-cases (req.protocol == "anthropic_messages")) [ inl e ↦ rw e | inr e ↦ rw e ]

module _ (cel : Cel) (any : String → cel.Any) (to_lower : String → String) (parser : Parser)
    (json : JsonMaps) (random : Random) (sha : Sha256) {F Body : Type 0} (adapters : Dict Adapter)
    (answers : ℕ → ProviderRequest F json.Raw json.Map → Answer Body) (trace_id : String)
    (has_cost_writer reserved : Bool) (reads : Reads (Engine cel) F)
    (req : ForwardRequest parser.Raw (AnthropicRequest F json.Raw json.Map)) where
  abbrev pub run_of : IngressRun (ProviderRequest F json.Raw json.Map) Body
  run_of =
      ingress_run cel any to_lower parser json random sha adapters answers trace_id has_cost_writer
        reserved reads req

  -- The decision that is routed.
  abbrev pub IsDecided : Decision → Type 0
  IsDecided dec =
      (made : Decision) × (decide cel reads.engine (policy_input cel any to_lower req) ≡ ok made)
      × (dec ≡ require_capabilities parser req (allowed_capabilities reads.policy_config) made)

  abbrev pub required : Decision → Decision
  required made = require_capabilities parser req (allowed_capabilities reads.policy_config) made

  abbrev pub routed : Decision → IngressRun (ProviderRequest F json.Raw json.Map) Body
  routed dec = with_audit (decision_made ∷ []) (
      route json random sha adapters answers trace_id has_cost_writer reserved req.body
        reads.selector reads.egress_selector reads.key_config dec)

  pub ran :
      (made : Decision)
      → decide cel reads.engine (policy_input cel any to_lower req) ≡ ok made
      → run_of ≡ routed (required made)
  unfolding ingress_run
  ran made p = rw (p, ingress_run)

  pub not_ran :
      (e : EngineError)
      → decide cel reads.engine (policy_input cel any to_lower req) ≡ err e
      → run_of ≡ stopped (routing_no_candidate ∷ []) (policy_evaluate e)
  unfolding ingress_run
  not_ran e p = rw (p, ingress_run)

  -- Whatever reloads come between its reads, a run calls no provider and fails, or calls one at most
  -- twice: at the URL of the first member of the second chain, but with the key of the first member of
  -- the first chain, which is the member that a result names.
  pub ingress_run-IsRouted :
      IsRefused run_of
      ⊎ ((dec : Decision) × IsDecided dec
          × IsRouted json random sha adapters answers trace_id has_cost_writer reserved req.body
              reads.selector reads.egress_selector reads.key_config dec run_of)
  ingress_run-IsRouted =
      elim (Result-cases (decide cel reads.engine (policy_input cel any to_lower req))) [
        | inl (e, p) ↦ inl (rw (not_ran e p) (refl, (policy_evaluate e, refl)))
        | inr (made, p) ↦
            elim (route-IsRouted json random sha adapters answers trace_id has_cost_writer reserved
              req.body reads.selector reads.egress_selector reads.key_config (required made)) [
                | inl none_made ↦ inl (rw (ran made p) none_made)
                | inr sent ↦ inr (required made, (made, p, refl), rw (ran made p) sent)
              ]
      ]

  -- Where both reads of the selector see the same one, the URL, the model and the key of a call are
  -- those of one member, the first of its chain.
  pub ingress_run-selector :
      reads.egress_selector ≡ reads.selector
      → IsRefused run_of
        ⊎ ((dec : Decision) × (m : Member) × (cfg : GatewayConfig F) × IsDecided dec
            × IsHead random sha trace_id reads.selector dec m
            × (reads.key_config ≡ some cfg)
            × All (IsFor m (key_of cfg m)) run_of.calls
            × (length run_of.calls ≤ 2)
            × RoutedTo m run_of.result)
  ingress_run-selector same = elim ingress_run-IsRouted [
    | inl refused ↦ inl refused
    | inr (dec, decided, (m, m', cfg, head, head', found, calls, few, named)) ↦
        let one : m' ≡ m =
          head_unique random sha trace_id reads.selector dec m m' head (rw same at head') in
        inr (
          dec,
          m,
          cfg,
          decided,
          head,
          found,
          subst (λ x. All (IsFor x (key_of cfg m)) run_of.calls) one calls,
          few,
          named,
        )
  ]
