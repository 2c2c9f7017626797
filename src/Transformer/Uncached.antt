-- ===== src/Transformer/Uncached.antt =====
-- Stripping a request, internal/shared/transformer/degraded.go, is like reading one that never asked for
-- thinking or caching: internal/shared/transformer/anthropic.go.
use agentgate.Base.{
  ◌≡◌, refl, ap₂, Option, none, some, List, [], ◌∷◌, map, ◌==◌, Bool-cases, inl, inr, if◌then◌else◌,
}
use agentgate.External.{JsonMaps}
use agentgate.Transformer.Ir.{cons}
use agentgate.Transformer.Anthropic.{
  AnthropicBlock, AnthropicContent, anthropic_block, no_blocks, add_block, AnthropicMessage,
  AnthropicThinking, AnthropicRequest,
}
use agentgate.Transformer.ToIr.{
  anthropic_block_to_ir, content_to_ir, messages_to_ir, thinking_to_ir, anthropic_to_ir,
}
use agentgate.Transformer.Degraded.{uncached, is_thinking, strip_anthropic_features}
use agentgate.Transformer.Stripped.{all_uncached, uncached_message, strip_anthropic_features_lem}

-- The client's request without `cache_control` on its blocks, and without `thinking`.
abbrev pub block_without : {Raw : Type 0} → AnthropicBlock Raw → AnthropicBlock Raw
block_without
      (anthropic_block type_ text id name input tool_use_id content is_error cache thinking) =
    anthropic_block type_ text id name input tool_use_id content is_error none thinking

abbrev pub content_without : {Raw : Type 0} → AnthropicContent Raw → AnthropicContent Raw
content_without no_blocks = no_blocks
content_without (add_block b content) = add_block (block_without b) (content_without content)

abbrev pub message_without : {Raw : Type 0} → AnthropicMessage Raw → AnthropicMessage Raw
message_without msg = record msg { content = content_without msg.content }

abbrev pub request_without :
    {F Raw Map : Type 0} → AnthropicRequest F Raw Map → AnthropicRequest F Raw Map
request_without raw = record raw {
  messages = map message_without raw.messages;
  system = content_without raw.system;
  thinking = none;
}

not_thinking :
    (t : Option AnthropicThinking)
    → (if is_thinking (thinking_to_ir t) then none else thinking_to_ir t) ≡ none
not_thinking none = refl
not_thinking (some t) = refl

module _ (json : JsonMaps) where
  block_to_ir-without :
      (b : AnthropicBlock json.Raw)
      → uncached (anthropic_block_to_ir json b) ≡ anthropic_block_to_ir json (block_without b)
  unfolding anthropic_block_to_ir
  block_to_ir-without
        (anthropic_block t text id name input tool_use_id content is_error cache thinking) =
      elim (Bool-cases (t == "text")) [
        | inl e ↦ rw e
        | inr e ↦ rw e (elim (Bool-cases (t == "tool_use")) [
          | inl f ↦ rw f
          | inr f ↦ rw f (elim (Bool-cases (t == "tool_result")) [
            | inl g ↦ rw g
            | inr g ↦ rw g (elim (Bool-cases (t == "thinking")) [ inl h ↦ rw h | inr h ↦ rw h ])
          ])
        ])
      ]

  content_to_ir-without :
      (content : AnthropicContent json.Raw)
      → all_uncached (content_to_ir json content) ≡ content_to_ir json (content_without content)
  unfolding content_to_ir
  content_to_ir-without no_blocks = refl
  content_to_ir-without (add_block b content) =
      ap₂ cons (block_to_ir-without b) (content_to_ir-without content)

  messages_to_ir-without :
      (messages : List (AnthropicMessage json.Raw))
      → map uncached_message (messages_to_ir json messages)
        ≡ messages_to_ir json (map message_without messages)
  messages_to_ir-without [] = refl
  messages_to_ir-without (msg ∷ messages) =
      rw (content_to_ir-without msg.content) (rw (messages_to_ir-without messages))

  pub strip-anthropic_to_ir :
      {F : Type 0} (raw : AnthropicRequest F json.Raw json.Map)
      → (strip_anthropic_features (anthropic_to_ir json raw)).1
        ≡ anthropic_to_ir json (request_without raw)
  unfolding anthropic_to_ir
  strip-anthropic_to_ir raw = rw (strip_anthropic_features_lem (anthropic_to_ir json raw)) (
      rw (not_thinking raw.thinking)
        (rw (content_to_ir-without raw.system) (rw (messages_to_ir-without raw.messages))))
