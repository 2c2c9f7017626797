-- ===== src/Transformer/OpenAiSent.antt =====
-- A client's request that goes to an OpenAI provider: the composition of
-- internal/shared/transformer/anthropic.go, degraded.go and openai.go.
use agentgate.Base.{◌≡◌, refl, none, some, List, [], ◌∷◌, map, ◌==◌, Bool-cases, inl, inr, eq_iff}
use agentgate.External.{JsonMaps}
use agentgate.Transformer.Ir.{ContentBlock, Blocks, block, no_result, result, nil, cons, Message}
use agentgate.Transformer.Anthropic.{
  AnthropicBlock, AnthropicContent, anthropic_block, no_blocks, add_block, AnthropicMessage,
  AnthropicRequest,
}
use agentgate.Transformer.ToIr.{
  anthropic_block_to_ir, content_to_ir, messages_to_ir, anthropic_to_ir,
}
use agentgate.Transformer.Degraded.{uncached, strip_anthropic_features}
use agentgate.Transformer.Stripped.{all_uncached, uncached_message, strip_anthropic_features_lem}
use agentgate.Transformer.OpenAi.{openai_request, ir_to_openai}
use agentgate.Transformer.OpenAiBody.{HasPayload, AllPayload, AllMessages, sent, ir_to_openai_lem}

uncached-HasPayload : {Map : Type 0} (c : ContentBlock Map) → HasPayload c → HasPayload (uncached c)
uncached-HasPayload (block t text none no_result thinking cache) h = h
uncached-HasPayload (block t text none (result id content is_error) thinking cache) h = h
uncached-HasPayload (block t text (some use_) no_result thinking cache) h = h
uncached-HasPayload (block t text (some use_) (result id content is_error) thinking cache) h = h

all_uncached-AllPayload :
    {Map : Type 0} (blocks : Blocks Map) → AllPayload blocks → AllPayload (all_uncached blocks)
all_uncached-AllPayload nil h = h
all_uncached-AllPayload (cons c blocks) h =
    (uncached-HasPayload c h.0, all_uncached-AllPayload blocks h.1)

module _ (json : JsonMaps) where
  open json use {Raw, Map}

  uncached-AllMessages :
      (messages : List (Message Map))
      → AllMessages json messages
      → AllMessages json (map uncached_message messages)
  uncached-AllMessages [] h = h
  uncached-AllMessages (msg ∷ messages) h =
      (all_uncached-AllPayload msg.content h.0, uncached-AllMessages messages h.1)

  block_to_ir-HasPayload : (b : AnthropicBlock Raw) → HasPayload (anthropic_block_to_ir json b)
  unfolding anthropic_block_to_ir
  block_to_ir-HasPayload
        (anthropic_block t text id name input tool_use_id content is_error cache thinking) =
      elim (Bool-cases (t == "text")) [
        | inl e ↦ rw e (λ f. cc (rw f at e), λ f. cc (rw f at e))
        | inr e ↦ elim (Bool-cases (t == "tool_use")) [
          | inl f ↦ rw ((eq_iff t "tool_use").0 f) refl
          | inr f ↦ elim (Bool-cases (t == "tool_result")) [
            | inl g ↦ rw ((eq_iff t "tool_result").0 g) refl
            | inr g ↦
                rw (e, f, g)
                  (elim (Bool-cases (t == "thinking")) [
                    | inl h ↦ rw h (λ p. cc (rw p at f), λ p. cc (rw p at g))
                    | inr h ↦ rw h (λ p. cc (rw p at f), λ p. cc (rw p at g))
                  ])
          ]
        ]
      ]

  content_to_ir-AllPayload :
      (content : AnthropicContent Raw) → AllPayload (content_to_ir json content)
  unfolding content_to_ir
  content_to_ir-AllPayload no_blocks = tt
  content_to_ir-AllPayload (add_block b content) =
      (block_to_ir-HasPayload b, content_to_ir-AllPayload content)

  messages_to_ir-AllMessages :
      (messages : List (AnthropicMessage Raw)) → AllMessages json (messages_to_ir json messages)
  messages_to_ir-AllMessages [] = tt
  messages_to_ir-AllMessages (msg ∷ messages) =
      (content_to_ir-AllPayload msg.content, messages_to_ir-AllMessages messages)

  -- A request of Anthropic's format, stripped for another provider, always has an OpenAI body: no nil
  -- pointer is met. Each message keeps its tool calls in their order, and its content is the last of
  -- its texts and tool results.
  pub ir_to_openai-strip :
      {F : Type 0} (raw : AnthropicRequest F Raw Map)
      → let req = (strip_anthropic_features (anthropic_to_ir json raw)).1 in
        ir_to_openai json req ≡ some (openai_request json req (map (sent json) req.messages))
  unfolding anthropic_to_ir
  ir_to_openai-strip raw = ir_to_openai_lem json _ (
      rw (strip_anthropic_features_lem (anthropic_to_ir json raw)) (
        uncached-AllMessages (messages_to_ir json raw.messages)
          (messages_to_ir-AllMessages raw.messages)))
