-- ===== src/Transformer/ToIr.antt =====
-- From Anthropic's wire format to the gateway's form: internal/shared/transformer/anthropic.go. The model
-- starts behind json.Unmarshal of the body.
use agentgate.Base.{String, true, false, Option, none, some, List, [], ◌∷◌, ◌==◌, if◌then◌else◌}
use agentgate.External.{JsonMaps}
use agentgate.Transformer.Ir.{
  CacheControlSpec, ContentBlock, Blocks, block, no_result, result, nil, cons, Message, Tool,
  ToolChoice, ThinkingSpec, IrRequest,
}
use agentgate.Transformer.Anthropic.{
  CacheControl, AnthropicBlock, AnthropicContent, anthropic_block, no_blocks, add_block,
  AnthropicMessage, AnthropicTool, AnthropicToolChoice, AnthropicThinking, AnthropicRequest,
  ContentJson, null, other, string, blocks,
}

abbrev pub text_or_empty : Option String → String
text_or_empty none = ""
text_or_empty (some s) = s

abbrev pub cache_spec : Option CacheControl → Option CacheControlSpec
cache_spec none = none
cache_spec (some c) = some (record { type_ = c.type_; ttl = "" })

abbrev pub tool_choice_to_ir : Option AnthropicToolChoice → Option ToolChoice
tool_choice_to_ir none = none
tool_choice_to_ir (some tc) =
    some (record { type_ = if tc.type_ == "tool" then "specific" else tc.type_; name = tc.name })

abbrev pub thinking_to_ir : Option AnthropicThinking → Option ThinkingSpec
thinking_to_ir none = none
thinking_to_ir (some t) = some (record { enabled = true; budget_tokens = t.budget_tokens })

abbrev pub tools_to_ir : {Map : Type 0} → List (AnthropicTool Map) → List (Tool Map)
tools_to_ir [] = []
tools_to_ir (t ∷ tools) =
    record { name = t.name; description = t.description; input_schema = t.input_schema }
    ∷ tools_to_ir tools

module _ (json : JsonMaps) where
  open json use {Raw, Map}

  abbrev pub parse_json_map : Raw → Map
  parse_json_map raw = if json.is_empty raw then json.nil else json.unmarshal raw

  abbrev pub text_block : String → String → AnthropicBlock Raw
  text_block type_ text = anthropic_block type_ text "" "" json.empty "" no_blocks false none none

  unfoldable pub unmarshal_content : ContentJson Raw → Option (AnthropicContent Raw)
  unmarshal_content null = some no_blocks
  unmarshal_content other = none
  unmarshal_content (string s) = some (add_block (text_block "text" s) no_blocks)
  unmarshal_content (blocks content) = some content

  unfoldable mutual
    pub anthropic_block_to_ir : AnthropicBlock Raw → ContentBlock Map
    anthropic_block_to_ir
          (anthropic_block type_ text id name input tool_use_id content is_error cache thinking) =
        let inner = content_to_ir content in
        let spec = cache_spec cache in
        if type_ == "text"
        then block type_ text none no_result none spec
        else if type_ == "tool_use"
        then block type_ "" (some (record { id = id; name = name; input = parse_json_map input }))
            no_result none spec
        else if type_ == "tool_result"
        then block type_ "" none (result tool_use_id inner is_error) none spec
        else if type_ == "thinking"
        then block type_ "" none no_result (some (record { text = text_or_empty thinking })) spec
        else block type_ "" none no_result none spec

    pub content_to_ir : AnthropicContent Raw → Blocks Map
    content_to_ir no_blocks = nil
    content_to_ir (add_block b content) = cons (anthropic_block_to_ir b) (content_to_ir content)

  abbrev pub messages_to_ir : List (AnthropicMessage Raw) → List (Message Map)
  messages_to_ir [] = []
  messages_to_ir (msg ∷ messages) =
      record { role = msg.role; content = content_to_ir msg.content } ∷ messages_to_ir messages

  unfoldable pub anthropic_to_ir : {F : Type 0} → AnthropicRequest F Raw Map → IrRequest F Map
  anthropic_to_ir raw = record {
    model = raw.model;
    messages = messages_to_ir raw.messages;
    system = content_to_ir raw.system;
    tools = tools_to_ir raw.tools;
    tool_choice = tool_choice_to_ir raw.tool_choice;
    max_tokens = raw.max_tokens;
    temperature = raw.temperature;
    stream = raw.stream;
    thinking = thinking_to_ir raw.thinking;
    metadata = raw.metadata;
  }
