-- ===== src/Transformer/FromIr.antt =====
-- From the gateway's form to Anthropic's wire format: internal/shared/transformer/anthropic.go. The model
-- ends before json.Marshal of a value, and `none` is a field that is left out.
use agentgate.Base.{String, false, Option, none, some, List, [], ◌∷◌, ◌==◌, if◌then◌else◌}
use agentgate.External.{JsonMaps}
use agentgate.Transformer.Ir.{
  CacheControlSpec, ToolUse, ThinkingBlock, ContentBlock, ToolResult, Blocks, block, no_result,
  result, nil, cons, Message, Tool, ToolChoice, ThinkingSpec, IrRequest,
}
use agentgate.Transformer.Anthropic.{
  CacheControl, AnthropicBlock, AnthropicContent, anthropic_block, no_blocks, add_block,
  AnthropicMessage, AnthropicTool, AnthropicToolChoice, AnthropicThinking,
}

abbrev pub cache_struct : Option CacheControlSpec → Option CacheControl
cache_struct none = none
cache_struct (some c) = some (record { type_ = c.type_ })

abbrev pub tools_of_ir : {Map : Type 0} → List (Tool Map) → List (AnthropicTool Map)
tools_of_ir [] = []
tools_of_ir (t ∷ tools) =
    record { name = t.name; description = t.description; input_schema = t.input_schema }
    ∷ tools_of_ir tools

-- Nothing where there are no tools.
abbrev pub tools_or_none : {Map : Type 0} → List (Tool Map) → Option (List (AnthropicTool Map))
tools_or_none [] = none
tools_or_none (t ∷ tools) = some (tools_of_ir (t ∷ tools))

abbrev pub tool_choice_or_none : Option ToolChoice → Option AnthropicToolChoice
tool_choice_or_none none = none
tool_choice_or_none (some tc) =
    some (record { type_ = if tc.type_ == "specific" then "tool" else tc.type_; name = tc.name })

abbrev pub thinking_or_none : Option ThinkingSpec → Option AnthropicThinking
thinking_or_none none = none
thinking_or_none (some t) = some (record { type_ = "enabled"; budget_tokens = t.budget_tokens })

unfoldable pub ir_to_anthropic_tools :
    {F Map : Type 0} → IrRequest F Map → Option (List (AnthropicTool Map))
ir_to_anthropic_tools req = tools_or_none req.tools

unfoldable pub ir_to_anthropic_tool_choice :
    {F Map : Type 0} → IrRequest F Map → Option AnthropicToolChoice
ir_to_anthropic_tool_choice req = tool_choice_or_none req.tool_choice

unfoldable pub ir_to_anthropic_thinking :
    {F Map : Type 0} → IrRequest F Map → Option AnthropicThinking
ir_to_anthropic_thinking req = thinking_or_none req.thinking

module _ (json : JsonMaps) where
  open json use {Raw, Map}

  -- A block with its type and `cache_control`, before the other fields are set.
  abbrev pub bare_block : String → Option CacheControl → AnthropicBlock Raw
  bare_block type_ cache = anthropic_block type_ "" "" "" json.empty "" no_blocks false cache none

  abbrev pub tool_use_block :
      String → Option (ToolUse Map) → Option CacheControl → AnthropicBlock Raw
  tool_use_block type_ none cache = bare_block type_ cache
  tool_use_block type_ (some use_) cache =
      anthropic_block type_ "" use_.id use_.name (json.marshal use_.input) "" no_blocks false cache
        none

  abbrev pub thinking_block :
      String → Option ThinkingBlock → Option CacheControl → AnthropicBlock Raw
  thinking_block type_ none cache = bare_block type_ cache
  thinking_block type_ (some t) cache =
      anthropic_block type_ "" "" "" json.empty "" no_blocks false cache (some t.text)

  unfoldable mutual
    pub ir_block_to_anthropic_block : ContentBlock Map → AnthropicBlock Raw
    ir_block_to_anthropic_block (block type_ text tool_use tool_result thinking cache) =
        let res = tool_result_block type_ tool_result (cache_struct cache) in
        if type_ == "text"
        then anthropic_block type_ text "" "" json.empty "" no_blocks false (cache_struct cache)
            none
        else if type_ == "tool_use"
        then tool_use_block type_ tool_use (cache_struct cache)
        else if type_ == "tool_result"
        then res
        else if type_ == "thinking"
        then thinking_block type_ thinking (cache_struct cache)
        else bare_block type_ (cache_struct cache)

    pub tool_result_block : String → ToolResult Map → Option CacheControl → AnthropicBlock Raw
    tool_result_block type_ no_result cache = bare_block type_ cache
    tool_result_block type_ (result tool_use_id content is_error) cache =
        anthropic_block type_ "" "" "" json.empty tool_use_id (ir_to_content content) is_error cache
          none

    pub ir_to_content : Blocks Map → AnthropicContent Raw
    ir_to_content nil = no_blocks
    ir_to_content (cons c blocks) = add_block (ir_block_to_anthropic_block c) (ir_to_content blocks)

  -- Nothing where there are no system blocks.
  abbrev pub system_or_none : Blocks Map → Option (AnthropicContent Raw)
  system_or_none nil = none
  system_or_none (cons c blocks) = some (ir_to_content (cons c blocks))

  abbrev pub messages_of_ir : List (Message Map) → List (AnthropicMessage Raw)
  messages_of_ir [] = []
  messages_of_ir (msg ∷ messages) =
      record { role = msg.role; content = ir_to_content msg.content } ∷ messages_of_ir messages

  unfoldable pub ir_to_anthropic_system :
      {F : Type 0} → IrRequest F Map → Option (AnthropicContent Raw)
  ir_to_anthropic_system req = system_or_none req.system

  unfoldable pub ir_to_anthropic_messages :
      {F : Type 0} → IrRequest F Map → List (AnthropicMessage Raw)
  ir_to_anthropic_messages req = messages_of_ir req.messages
