-- ===== src/Pipeline/Ingress.antt =====
-- Pipeline.Run of internal/gw/server/ingress_pipeline.go. What the locked reads of the policy engine, of
-- the configuration and of the selector return is an argument, since a reload may come between two of
-- them. The writes to Postgres are left out, but for the reservation of the budget.
use agentgate.Base.{
  String, Bool, Option, none, some, List, [], ◌++◌, ◌==◌, lookup, if◌then◌else◌, Result, ok, err,
}
use agentgate.Config.Loaded.{GatewayConfig}
use agentgate.Policy.Capability.{Parser, detect_capabilities, filter_degradable}
use agentgate.Policy.Decision.{Decision, append_unique}
use agentgate.Policy.Engine.{EngineError}
use agentgate.Routing.Constraints.{Member}
use agentgate.Routing.Selector.{RoutingError, Selector}
use agentgate.Streaming.Accounting.{AccountedStreamConfig}
use agentgate.Pipeline.Egress.{AuditEvent, EgressError, EgressRun}

pub data PipelineError : Type 0 where
  policy_evaluate : EngineError → PipelineError
  routing_build_chain : RoutingError → PipelineError
  egress : EgressError → PipelineError
  -- An empty chain is indexed, or a nil configuration is read.
  panicked : PipelineError

-- The request, with its identity from the context. `raw` and `body` are what the detection of
-- capabilities and the egress pipeline parse of one and the same body.
pub record ForwardRequest (Raw Body : Type 0) : Type 0 where
  pub user_id : String
  pub team_id : String
  pub role : String
  pub protocol : String
  pub raw : Raw
  pub body : Option Body

-- The reads of Run in their order: the engine, the configuration for the degradable capabilities, the
-- selector, the configuration for the key, and the selector again, in the egress pipeline.
pub record Reads (Engine : Type 0) (F : Type 0) : Type 0 where
  pub engine : Engine
  pub policy_config : Option (GatewayConfig F)
  pub selector : Selector F
  pub key_config : Option (GatewayConfig F)
  pub egress_selector : Selector F

-- The result: the member that the headers and the accounting name, the degraded features that are
-- recorded, the configuration of the accounted stream and its body.
pub record PipelineResult (Body : Type 0) : Type 0 where
  pub routed_to : Member
  pub degraded : List String
  pub accounting : AccountedStreamConfig
  pub body : Body

pub record IngressRun (Request Body : Type 0) : Type 0 where
  pub audit : List AuditEvent
  pub calls : List Request
  pub result : Result PipelineError (PipelineResult Body)

abbrev pub allowed_capabilities : {F : Type 0} → Option (GatewayConfig F) → List String
allowed_capabilities none = []
allowed_capabilities (some c) = c.policy.degradation.allowed_capabilities

abbrev pub key_of : {F : Type 0} → GatewayConfig F → Member → String
key_of c m = elim (lookup m.endpoint_id c.resolved_endpoints) [
  | none ↦ ""
  | some ep ↦ ep.resolved_key
]

abbrev pub pool_or_standard : String → String
pool_or_standard pool = if pool == "" then "standard" else pool

-- The decision with the capabilities that the body needs and the policy does not let degrade.
unfoldable pub require_capabilities :
    {Body : Type 0} (parser : Parser)
    → ForwardRequest parser.Raw Body
    → List String
    → Decision
    → Decision
require_capabilities parser req allowed dec =
    if req.protocol == "anthropic_messages"
    then record dec {
      required_capabilities =
          append_unique dec.required_capabilities
            (filter_degradable (detect_capabilities parser req.raw) allowed);
    }
    else dec

abbrev pub stopped :
    {Request Body : Type 0} → List AuditEvent → PipelineError → IngressRun Request Body
stopped events e = record { audit = events; calls = []; result = err e }

-- From the return of the egress pipeline on. `has_cost_writer` is `PgCostW != nil`,
-- and `reserved` says whether Reserve returned a reservation.
abbrev pub respond :
    {Request Body : Type 0}
    → Bool
    → Bool
    → Member
    → String
    → Decision
    → EgressRun Request Body
    → IngressRun Request Body
respond has_cost_writer reserved m pool dec run = elim run.result [
  | err e ↦ record { audit = run.audit; calls = run.calls; result = err (egress e) }
  | ok r ↦ record {
    audit = run.audit;
    calls = run.calls;
    result = ok (record {
      routed_to = m;
      degraded = append_unique dec.degraded_features r.degraded;
      accounting = record {
        wire = m.wire;
        has_cost_writer = has_cost_writer;
        vendor_id = m.vendor_id;
        endpoint_id = m.endpoint_id;
        model = m.model;
        pool = pool;
        is_private = m.private;
        has_post_account = reserved;
      };
      body = r.body;
    });
  }
]

abbrev pub with_audit :
    {Request Body : Type 0} → List AuditEvent → IngressRun Request Body → IngressRun Request Body
with_audit events run = record run { audit = events ++ run.audit }
