-- ===== src/Pipeline/EgressRun.antt =====
-- The method Run of internal/gw/server/egress_pipeline.go, put together.
use agentgate.Base.{
  ℕ, ℤ, String, Option, none, some, List, [], ◌∷◌, Dict, lookup, Result, ok, err, if◌then◌else◌,
}
use agentgate.External.{Random, Sha256, JsonMaps}
use agentgate.Policy.Decision.{Decision}
use agentgate.Provider.Request.{ProviderRequest, Answer, is_upstream_error, Adapter}
use agentgate.Routing.Constraints.{Member}
use agentgate.Routing.Seed.{seed_bytes}
use agentgate.Routing.Selector.{RoutingError, Selector, build_chain}
use agentgate.Transformer.Anthropic.{AnthropicRequest}
use agentgate.Pipeline.Egress.{
  AuditEvent, routing_no_candidate, request_completed, provider_call, provider_5xx_retry,
  EgressError, routing_error, no_adapter, bad_request, panicked, propagated, after_retry,
  EgressResult, EgressRun, Attempt, try_stream, provider_request, degraded_for,
}

module _ {Request Body : Type 0} where
  abbrev pub no_call : List AuditEvent → EgressError → EgressRun Request Body
  no_call events e = record { audit = events; calls = []; result = err e }

  -- From tryStream on.
  abbrev pub finish :
      Member → EgressResult (Unit {0}) → Attempt Request Body → EgressRun Request Body
  finish m partial attempt = elim attempt.result [
    | ok body ↦ record {
      audit = provider_call m.endpoint_id m.model ∷ request_completed ∷ [];
      calls = attempt.calls;
      result = ok (record {
        body = body;
        seed = partial.seed;
        chain = partial.chain;
        degraded = partial.degraded;
        member = partial.member;
        api_key = partial.api_key;
      });
    }
    | err e ↦
        if is_upstream_error e
        then record {
          audit = provider_call m.endpoint_id m.model ∷ [];
          calls = attempt.calls;
          result = err (propagated e);
        }
        else record {
          audit =
              provider_call m.endpoint_id m.model
              ∷ provider_5xx_retry "provider_5xx_after_retry"
              ∷ [];
          calls = attempt.calls;
          result = err (after_retry e);
        }
  ]

module _ (json : JsonMaps) (random : Random) (sha : Sha256) {F : Type 0} {Body : Type 0} where
  open json use {Raw, Map}

  module _ (adapters : Dict Adapter) (trace_id pool_name : String) (attempt_no : ℤ)
      (body : Option (AnthropicRequest F Raw Map)) (api_key : String)
      (answers : ℕ → ProviderRequest F Raw Map → Answer Body) where
    abbrev pub call_provider :
        Member
        → List Member
        → Adapter
        → List String
        → Result EgressError (ProviderRequest F Raw Map)
        → EgressRun (ProviderRequest F Raw Map) Body
    call_provider m chain adapter degraded (err e) =
        no_call (provider_call m.endpoint_id m.model ∷ []) e
    call_provider m chain adapter degraded (ok prov) =
        finish m
          (record {
            body = tt;
            seed = seed_bytes sha trace_id pool_name attempt_no;
            chain = chain;
            degraded = degraded;
            member = m;
            api_key = api_key;
          })
          (try_stream adapter answers prov)

    abbrev pub with_body :
        Member
        → List Member
        → Adapter
        → Option (AnthropicRequest F Raw Map)
        → EgressRun (ProviderRequest F Raw Map) Body
    with_body m chain adapter none = no_call (provider_call m.endpoint_id m.model ∷ []) bad_request
    with_body m chain adapter (some raw) =
        let (degraded, ir) = degraded_for json m raw in
        call_provider m chain adapter degraded (provider_request json m api_key ir)

    abbrev pub with_adapter :
        Member → List Member → Option Adapter → EgressRun (ProviderRequest F Raw Map) Body
    with_adapter m chain none = no_call [] (no_adapter m.wire)
    with_adapter m chain (some adapter) = with_body m chain adapter body

    abbrev pub with_chain :
        Result RoutingError (List Member) → EgressRun (ProviderRequest F Raw Map) Body
    with_chain (err e) = no_call (routing_no_candidate ∷ []) (routing_error e)
    with_chain (ok []) = no_call [] panicked
    with_chain (ok (m ∷ ms)) = with_adapter m (m ∷ ms) (lookup m.wire adapters)

    -- `body` is what json.Unmarshal makes of the request's body.
    unfoldable pub egress_run :
        Selector F → Option Decision → EgressRun (ProviderRequest F Raw Map) Body
    egress_run sel dec = with_chain (build_chain random sha sel pool_name dec trace_id attempt_no)
