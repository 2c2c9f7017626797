-- ===== src/Pipeline/Egress.antt =====
-- EgressPipeline.Run of internal/gw/server/egress_pipeline.go. The provider's answers to the calls are a
-- parameter, and a run returns the audit events and the provider requests that it has made.
use agentgate.Base.{
  ℕ, String, true, ◌||◌, not, Option, none, some, List, [], ◌∷◌, ◌==◌, if◌then◌else◌, Result, ok,
  err,
}
use agentgate.External.{JsonMaps}
use agentgate.Provider.Request.{
  anthropic_messages, openai_body, ProviderRequest, Answer, StreamError, retry_failed,
  is_upstream_error, Adapter, stream_result,
}
use agentgate.Routing.Constraints.{Member}
use agentgate.Routing.Selector.{RoutingError}
use agentgate.Transformer.Ir.{IrRequest}
use agentgate.Transformer.Anthropic.{AnthropicRequest}
use agentgate.Transformer.ToIr.{anthropic_to_ir}
use agentgate.Transformer.FromIr.{
  ir_to_anthropic_messages, ir_to_anthropic_system, ir_to_anthropic_tools,
  ir_to_anthropic_tool_choice, ir_to_anthropic_thinking,
}
use agentgate.Transformer.OpenAi.{OpenAiRequest, ir_to_openai}
use agentgate.Transformer.Degraded.{strip_anthropic_features}

-- The audit events of the two pipelines: the endpoint and the model of a call, and an error code.
pub data AuditEvent : Type 0 where
  routing_no_candidate decision_made request_completed : AuditEvent
  provider_call : String → String → AuditEvent
  provider_5xx_retry : String → AuditEvent

pub data EgressError : Type 0 where
  routing_error : RoutingError → EgressError
  no_adapter unsupported_wire : String → EgressError
  bad_request panicked : EgressError
  -- An UpstreamError is passed on, and any other error is wrapped.
  propagated after_retry : StreamError → EgressError

pub record EgressResult (Body : Type 0) : Type 0 where
  pub body : Body
  pub seed : List ℕ
  pub chain : List Member
  pub degraded : List String
  pub member : Member
  pub api_key : String

-- What a run has written and called when it returns.
pub record EgressRun (Request Body : Type 0) : Type 0 where
  pub audit : List AuditEvent
  pub calls : List Request
  pub result : Result EgressError (EgressResult Body)

-- The calls of tryStream, and what it returns. `answers` gives the answer to the call with a number.
pub record Attempt (Request Body : Type 0) : Type 0 where
  pub calls : List Request
  pub result : Result StreamError Body

abbrev pub wrap_retry : {Body : Type 0} → Result StreamError Body → Result StreamError Body
wrap_retry (ok body) = ok body
wrap_retry (err e) = err (retry_failed e)

abbrev pub retried :
    {Request Body : Type 0} → Request → Result StreamError Body → StreamError → Attempt Request Body
retried req second e =
    if is_upstream_error e
    then record { calls = req ∷ []; result = err e }
    else record { calls = req ∷ req ∷ []; result = wrap_retry second }

unfoldable pub try_stream :
    {Request Body : Type 0} → Adapter → (ℕ → Request → Answer Body) → Request → Attempt Request Body
try_stream adapter answers req = elim (stream_result adapter (answers 0 req)) [
  | ok body ↦ record { calls = req ∷ []; result = ok body }
  | err e ↦ retried req (stream_result adapter (answers 1 req)) e
]

module _ (json : JsonMaps) {F : Type 0} where
  open json use {Raw, Map}

  abbrev pub with_openai_body :
      ProviderRequest F Raw Map
      → Option (OpenAiRequest F Raw Map)
      → Result EgressError (ProviderRequest F Raw Map)
  with_openai_body prov none = err panicked
  with_openai_body prov (some body) = ok (record prov { messages = openai_body body })

  -- The request before the switch on the wire.
  abbrev pub base_request : Member → String → IrRequest F Map → ProviderRequest F Raw Map
  base_request m api_key ir = record {
    model = m.model;
    messages = anthropic_messages [];
    max_tokens = ir.max_tokens;
    temperature = ir.temperature;
    stream = true;
    api_key = api_key;
    url = m.url;
    system = none;
    tools = none;
    tool_choice = none;
    metadata = [];
    thinking = none;
  }

  abbrev pub anthropic_request : Member → String → IrRequest F Map → ProviderRequest F Raw Map
  anthropic_request m api_key ir = record (base_request m api_key ir) {
    messages = anthropic_messages (ir_to_anthropic_messages json ir);
    system = ir_to_anthropic_system json ir;
    tools = ir_to_anthropic_tools ir;
    tool_choice = ir_to_anthropic_tool_choice ir;
    thinking = ir_to_anthropic_thinking ir;
    metadata = ir.metadata;
  }

  unfoldable pub provider_request :
      Member → String → IrRequest F Map → Result EgressError (ProviderRequest F Raw Map)
  provider_request m api_key ir =
      if (m.wire == "openai") || (m.wire == "openai_compat")
      then with_openai_body (base_request m api_key ir) (ir_to_openai json ir)
      else if (m.wire == "anthropic") || (m.wire == "anthropic_compat")
      then ok (anthropic_request m api_key ir)
      else err (unsupported_wire m.wire)

  -- The request in the gateway's form, and what was degraded for the member's wire.
  unfoldable pub degraded_for : Member → AnthropicRequest F Raw Map → List String × IrRequest F Map
  degraded_for m raw =
      let ir = anthropic_to_ir json raw in
      if not (m.wire == "anthropic") then strip_anthropic_features ir else ([], ir)
