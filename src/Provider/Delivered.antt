-- ===== src/Provider/Delivered.antt =====
-- What a provider of Anthropic's format reads in the body that it is sent: the way of a request through
-- internal/gw/server/egress_pipeline.go, internal/shared/transformer and
-- internal/gw/provider/anthropic.go.
use agentgate.Base.{◌≡◌, refl, String, true, List, [], ◌∷◌, inl, inr, ◌⊎◌, ok, ◌==◌, if◌then◌else◌}
use agentgate.External.{JsonMaps}
use agentgate.Pipeline.Egress.{anthropic_request, provider_request, degraded_for}
use agentgate.Provider.Request.{ProviderRequest, or_no_blocks, or_no_tools, anthropic_shaped_body}
use agentgate.Routing.Constraints.{Member}
use agentgate.Transformer.Ir.{Blocks, nil, cons, Tool, IrRequest}
use agentgate.Transformer.Anthropic.{AnthropicRequest}
use agentgate.Transformer.ToIr.{content_to_ir, tools_to_ir, anthropic_to_ir}
use agentgate.Transformer.FromIr.{
  ir_to_content, system_or_none, tools_of_ir, tools_or_none, ir_to_anthropic_messages,
  ir_to_anthropic_system, ir_to_anthropic_tools, ir_to_anthropic_tool_choice,
  ir_to_anthropic_thinking,
}
use agentgate.Transformer.RoundTrip.{
  tool_choice_twice, thinking_twice, tools_twice, blocks_twice, messages_twice,
}
use agentgate.Transformer.Kept.{
  kept_request, blocks_kept, messages_kept, tools_of_ir-tools_to_ir,
  tool_choice_or_none-tool_choice_to_ir, thinking_or_none-thinking_to_ir,
}
use agentgate.Transformer.Uncached.{request_without, strip-anthropic_to_ir}

some_tools :
    {Map : Type 0} (tools : List (Tool Map)) → or_no_tools (tools_or_none tools) ≡ tools_of_ir tools
some_tools [] = refl
some_tools (t ∷ tools) = refl

module _ (json : JsonMaps) where
  open json use {Raw, Map}

  some_system :
      (blocks : Blocks Map) → or_no_blocks (system_or_none json blocks) ≡ ir_to_content json blocks
  unfolding ir_to_content
  some_system nil = refl
  some_system (cons c blocks) = refl

  module _ {F : Type 0} (m : Member) (api_key : String) where
    anthropic_wire :
        (ir : IrRequest F Map)
        → (m.wire ≡ "anthropic") ⊎ (m.wire ≡ "anthropic_compat")
        → provider_request json m api_key ir ≡ ok (anthropic_request json m api_key ir)
    unfolding provider_request
    anthropic_wire ir (inl h) = rw h
    anthropic_wire ir (inr h) = rw h

    not_degraded :
        (raw : AnthropicRequest F Raw Map)
        → m.wire ≡ "anthropic"
        → (degraded_for json m raw).1 ≡ anthropic_to_ir json raw
    unfolding degraded_for
    not_degraded raw h = rw h

    degraded :
        (raw : AnthropicRequest F Raw Map)
        → m.wire ≡ "anthropic_compat"
        → (degraded_for json m raw).1 ≡ anthropic_to_ir json (request_without raw)
    unfolding degraded_for
    degraded raw h = rw h (strip-anthropic_to_ir json raw)

    read_back :
        (raw : AnthropicRequest F Raw Map)
        → let prov = anthropic_request json m api_key (anthropic_to_ir json raw) in
          anthropic_to_ir json (anthropic_shaped_body prov true)
          ≡ record (anthropic_to_ir json raw) { model = m.model; stream = true }
    unfolding anthropic_to_ir anthropic_shaped_body ir_to_anthropic_messages ir_to_anthropic_system
        ir_to_anthropic_tools ir_to_anthropic_tool_choice ir_to_anthropic_thinking
    read_back raw = rw (messages_twice json raw.messages) (
        rw (some_system (content_to_ir json raw.system)) (
          rw (blocks_twice json raw.system) (
            rw (some_tools (tools_to_ir raw.tools)) (
              rw (tools_twice raw.tools)
                (rw (tool_choice_twice raw.tool_choice) (rw (thinking_twice raw.thinking)))))))

    sent_body :
        (raw : AnthropicRequest F Raw Map)
        → anthropic_shaped_body (anthropic_request json m api_key (anthropic_to_ir json raw)) true
          ≡ kept_request json m.model raw
    unfolding anthropic_to_ir anthropic_shaped_body ir_to_anthropic_messages ir_to_anthropic_system
        ir_to_anthropic_tools ir_to_anthropic_tool_choice ir_to_anthropic_thinking
    sent_body raw = rw (messages_kept json raw.messages) (
        rw (some_system (content_to_ir json raw.system)) (
          rw (blocks_kept json raw.system) (
            rw (some_tools (tools_to_ir raw.tools)) (
              rw (tools_of_ir-tools_to_ir raw.tools) (
                rw (tool_choice_or_none-tool_choice_to_ir raw.tool_choice)
                  (rw (thinking_or_none-thinking_to_ir raw.thinking)))))))

    -- The client's request, and for a compatible wire without `thinking` and without `cache_control`
    -- on the blocks of its messages and its system prompt.
    abbrev pub for_wire : AnthropicRequest F Raw Map → AnthropicRequest F Raw Map
    for_wire raw = if m.wire == "anthropic" then raw else request_without raw

    -- A member whose wire is Anthropic's or compatible gets a request. The body that its adapter makes
    -- of it is the client's, streamed and for the member's model: its messages and system prompt
    -- with what their blocks keep (their type and cache_control, and a text its text, a tool call its
    -- id, its name and its recoded arguments, a tool result its id, its error flag and what its blocks
    -- keep, a thought its text, and a block of another type nothing more), its tools, its tool choice,
    -- its limits and metadata, and thinking as enabled; for a compatible wire, without thinking, and
    -- without the cache_control of blocks that stand in no tool result. Read again, the body is the
    -- gateway's form of the request, but for the model and streaming.
    pub anthropic_shaped_body-degraded_for :
        (raw : AnthropicRequest F Raw Map)
        → (m.wire ≡ "anthropic") ⊎ (m.wire ≡ "anthropic_compat")
        → let ir = (degraded_for json m raw).1 in
          (prov : ProviderRequest F Raw Map) × (provider_request json m api_key ir ≡ ok prov)
          × (anthropic_shaped_body prov true ≡ kept_request json m.model (for_wire raw))
          × (anthropic_to_ir json (anthropic_shaped_body prov true)
              ≡ record ir { model = m.model; stream = true })
    anthropic_shaped_body-degraded_for raw (inl h) =
        rw (not_degraded raw h) (
          _,
          anthropic_wire (anthropic_to_ir json raw) (inl h),
          rw h (sent_body raw),
          read_back raw,
        )
    anthropic_shaped_body-degraded_for raw (inr h) = rw (degraded raw h) (
      _,
      anthropic_wire (anthropic_to_ir json (request_without raw)) (inr h),
      rw h (sent_body (request_without raw)),
      read_back (request_without raw),
    )
