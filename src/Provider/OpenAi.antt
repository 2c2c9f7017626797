-- ===== src/Provider/OpenAi.antt =====
-- What an OpenAI-compatible provider is sent: the way of a request through
-- internal/gw/server/egress_pipeline.go, internal/shared/transformer and
-- internal/gw/provider/openai_compat.go.
use agentgate.Base.{◌≡◌, refl, ◌⊎◌, inl, inr, some, ok, map, String}
use agentgate.External.{JsonMaps}
use agentgate.Pipeline.Egress.{base_request, provider_request, degraded_for}
use agentgate.Provider.Request.{openai_body, ProviderRequest}
use agentgate.Routing.Constraints.{Member}
use agentgate.Transformer.Anthropic.{AnthropicRequest}
use agentgate.Transformer.Ir.{IrRequest}
use agentgate.Transformer.ToIr.{anthropic_to_ir}
use agentgate.Transformer.Degraded.{strip_anthropic_features}
use agentgate.Transformer.OpenAi.{OpenAiRequest, openai_request, ir_to_openai}
use agentgate.Transformer.OpenAiBody.{sent}
use agentgate.Transformer.OpenAiSent.{ir_to_openai-strip}
use agentgate.Transformer.Stripped.{strip_anthropic_features_lem}

module _ (json : JsonMaps) {F : Type 0} (m : Member) (api_key : String) where
  open json use {Raw, Map}

  stripped_for :
      (raw : AnthropicRequest F Raw Map)
      → (m.wire ≡ "openai") ⊎ (m.wire ≡ "openai_compat")
      → (degraded_for json m raw).1 ≡ (strip_anthropic_features (anthropic_to_ir json raw)).1
  unfolding degraded_for
  stripped_for raw (inl h) = rw h
  stripped_for raw (inr h) = rw h

  openai_wire :
      (ir : IrRequest F Map) {body : OpenAiRequest F Raw Map}
      → (m.wire ≡ "openai") ⊎ (m.wire ≡ "openai_compat")
      → ir_to_openai json ir ≡ some body
      → provider_request json m api_key ir
        ≡ ok (record (base_request json m api_key ir) { messages = openai_body body })
  unfolding provider_request
  openai_wire ir (inl h) p = rw h (rw p)
  openai_wire ir (inr h) p = rw h (rw p)

  stripped_fields :
      (raw : AnthropicRequest F Raw Map)
      → let ir = (strip_anthropic_features (anthropic_to_ir json raw)).1 in
        (ir.model ≡ raw.model) × (ir.stream ≡ raw.stream)
  unfolding anthropic_to_ir
  stripped_fields raw = rw (strip_anthropic_features_lem (anthropic_to_ir json raw)) (refl, refl)

  -- A member whose wire is OpenAI's or compatible always gets a request: no nil pointer is met. Its body
  -- asks for the model that the client named, which need not be the member's, and for streaming only
  -- where the client did. Each of its messages keeps its tool calls in their order, and has as content
  -- the last of its texts and tool results.
  pub provider_request-openai_body :
      (raw : AnthropicRequest F Raw Map)
      → (m.wire ≡ "openai") ⊎ (m.wire ≡ "openai_compat")
      → let ir = (degraded_for json m raw).1 in
        (prov : ProviderRequest F Raw Map) × (body : OpenAiRequest F Raw Map) × (provider_request
            json m api_key ir
          ≡ ok prov)
        × (prov.messages ≡ openai_body body)
        × (body.model ≡ raw.model)
        × (body.stream ≡ raw.stream)
        × (body.messages ≡ map (sent json) ir.messages)
  provider_request-openai_body raw h = rw (stripped_for raw h) (
      let ir = (strip_anthropic_features (anthropic_to_ir json raw)).1 in
      let (model, stream) = stripped_fields raw in
      (
        _,
        openai_request json ir (map (sent json) ir.messages),
        openai_wire ir h (ir_to_openai-strip json raw),
        refl,
        model,
        stream,
        refl,
      ))
