-- ===== src/Tests/Pipeline.antt =====
-- Requests through both pipelines: internal/gw/server.
use agentgate.Base.{
  ℕ, ◌≡◌, refl, ◌⊎◌, String, true, false, [], ◌∷◌, Option, none, some, Dict, if◌then◌else◌, nat_eq,
}
use agentgate.Config.Loaded.{GatewayConfig}
use agentgate.Config.Types.{PoolsConfig}
use agentgate.Pipeline.Calls.{calls_again, try_stream_lem}
use agentgate.Pipeline.Egress.{wrap_retry, try_stream}
use agentgate.Pipeline.Ingress.{ForwardRequest}
use agentgate.Pipeline.Promised.{settled_reads, run_of}
use agentgate.Pipeline.Routed.{IsRefused, IsRouted}
use agentgate.Pipeline.Served
use agentgate.Pipeline.Served.{IsDecided, ingress_run-IsRouted}
use agentgate.Policy.Capability.{Parser}
use agentgate.Policy.Decision.{Decision}
use agentgate.Provider.Request.{Answer, response, Adapter, anthropic, openai_compat, stream_result}
use agentgate.Routing.Selector.{new_selector}
use agentgate.Tests.Doubles.{test_cel, test_random, test_sha}
use agentgate.Tests.Identity.{identity}
use agentgate.Tests.Policy.{eu, policy, engine}
use agentgate.Tests.Routing.{pools, standard}
use agentgate.Tests.Transformer.{texts, request}
use agentgate.Transformer.Anthropic.{AnthropicRequest}

-- A provider that fails with status 503 once.
abbrev flaky : {Request : Type 0} → ℕ → Request → Answer String
flaky n req = if nat_eq n 0 then response 503 "busy" else response 200 "done"

abbrev call_text : String
call_text = "req"

try_stream_lem_example : try_stream anthropic flaky call_text ≡ (
    if calls_again anthropic (flaky 0 call_text)
    then record {
      calls = call_text ∷ call_text ∷ [];
      result = wrap_retry (stream_result anthropic (flaky 1 call_text));
    }
    else record { calls = call_text ∷ []; result = stream_result anthropic (flaky 0 call_text) })
try_stream_lem_example = try_stream_lem anthropic flaky call_text

-- A client's error is not retried, except by an OpenAI-compatible provider.
client_error :
    (calls_again {Body = String} anthropic (response 404 "") ≡ false)
    × (calls_again {Body = String} openai_compat (response 404 "") ≡ true)
client_error = (refl, refl)

abbrev two_pools : PoolsConfig
two_pools = record pools { pools = ("standard", standard) ∷ ("eu_pool", standard) ∷ [] }

abbrev cfg : GatewayConfig ℕ
cfg = record {
  pools = two_pools;
  policy = policy (eu ∷ []);
  pricing = record { models = [] };
  identity = identity;
  resolved_endpoints = [];
}

-- A parser for which no body parses.
abbrev deaf : Parser
deaf = record { Raw = Unit {0}; blocks = λ _. none; block = λ _. none; body = λ _. none }

abbrev adapters : Dict Adapter
adapters = ("anthropic", anthropic) ∷ ("openai_compat", openai_compat) ∷ []

abbrev forwarded : ForwardRequest (Unit {0}) (AnthropicRequest ℕ String (Option String))
forwarded = record {
  user_id = "u1";
  team_id = "core";
  role = "developer";
  protocol = "anthropic_messages";
  raw = tt;
  body = some request;
}

ingress_run-IsRouted_example :
    IsRefused (
      Served.run_of test_cel
        (λ _. tt)
        (λ s. s)
        deaf
        texts
        test_random
        test_sha
        adapters
        flaky
        "t1"
        true
        false
        (settled_reads (engine (eu ∷ [])) cfg)
        forwarded)
    ⊎ ((dec : Decision) × IsDecided test_cel
          (λ _. tt)
          (λ s. s)
          deaf
          texts
          test_random
          test_sha
          {Body = String}
          adapters
          flaky
          "t1"
          true
          false
          (settled_reads (engine (eu ∷ [])) cfg)
          forwarded
          dec
        × IsRouted texts test_random test_sha adapters flaky "t1" true false forwarded.body
            (new_selector cfg.pools (some cfg.pricing))
            (new_selector cfg.pools (some cfg.pricing))
            (some cfg)
            dec
            (Served.run_of test_cel
              (λ _. tt)
              (λ s. s)
              deaf
              texts
              test_random
              test_sha
              adapters
              flaky
              "t1"
              true
              false
              (settled_reads (engine (eu ∷ [])) cfg)
              forwarded))
ingress_run-IsRouted_example =
    ingress_run-IsRouted test_cel (λ _. tt) (λ s. s) deaf texts test_random test_sha adapters flaky
      "t1" true false (settled_reads (engine (eu ∷ [])) cfg) forwarded
