-- ===== src/Pipeline/Promised.antt =====
-- What a gateway with a checked configuration promises of a request: Run of
-- internal/gw/server/ingress_pipeline.go on the engine of internal/gw/policy and the selector of
-- internal/gw/routing.
use agentgate.Base.{ℕ, String, Bool, some, List, Dict}
use agentgate.Config.Loaded.{GatewayConfig}
use agentgate.External.{Cel, SliceSort, Random, Sha256, JsonMaps}
use agentgate.Policy.Capability.{Parser}
use agentgate.Policy.Decision.{Decision}
use agentgate.Policy.Engine.{CompiledRule, Engine}
use agentgate.Provider.Request.{ProviderRequest, Answer, Adapter}
use agentgate.Routing.Selector.{new_selector}
use agentgate.Transformer.Anthropic.{AnthropicRequest}
use agentgate.Pipeline.Ingress.{ForwardRequest, Reads, IngressRun, require_capabilities}
use agentgate.Pipeline.IngressRun.{ingress_run}

-- What every read returns between two reloads: the engine, and what the configuration gives.
abbrev pub settled_reads : {F Engine : Type 0} → Engine → GatewayConfig F → Reads Engine F
settled_reads e cfg = record {
  engine = e;
  policy_config = some cfg;
  selector = new_selector cfg.pools (some cfg.pricing);
  key_config = some cfg;
  egress_selector = new_selector cfg.pools (some cfg.pricing);
}

module _ (cel : Cel) (any : String → cel.Any) (to_lower : String → String) (parser : Parser)
    (json : JsonMaps) (random : Random) (sha : Sha256) {F Body : Type 0} (adapters : Dict Adapter)
    (answers : ℕ → ProviderRequest F json.Raw json.Map → Answer Body) (trace_id : String)
    (has_cost_writer reserved : Bool) (sorter : SliceSort (CompiledRule cel))
    (sort_strings : List String → List String) (cfg : GatewayConfig F) (e : Engine cel)
    (req : ForwardRequest parser.Raw (AnthropicRequest F json.Raw json.Map)) where
  abbrev pub run_of : IngressRun (ProviderRequest F json.Raw json.Map) Body
  run_of =
      ingress_run cel any to_lower parser json random sha adapters answers trace_id has_cost_writer
        reserved (settled_reads e cfg) req

  abbrev pub required : Decision → Decision
  required made = require_capabilities parser req cfg.policy.degradation.allowed_capabilities made
