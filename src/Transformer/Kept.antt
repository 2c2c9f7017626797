-- ===== src/Transformer/Kept.antt =====
-- What a request keeps on its way from Anthropic's wire format to the gateway's form and back:
-- internal/shared/transformer/anthropic.go.
use agentgate.Base.{
  ◌≡◌, refl, ap, ap₂, String, true, false, Option, none, some, List, [], ◌∷◌, map, ◌==◌, Bool-cases,
  inl, inr, eq_iff, if◌then◌else◌,
}
use agentgate.External.{JsonMaps}
use agentgate.Transformer.Anthropic.{
  CacheControl, AnthropicBlock, AnthropicContent, anthropic_block, no_blocks, add_block,
  AnthropicMessage, AnthropicTool, AnthropicToolChoice, AnthropicThinking, AnthropicRequest,
}
use agentgate.Transformer.ToIr.{
  text_or_empty, cache_spec, anthropic_block_to_ir, content_to_ir, tools_to_ir, messages_to_ir,
  tool_choice_to_ir, thinking_to_ir,
}
use agentgate.Transformer.FromIr.{
  cache_struct, tools_of_ir, tool_choice_or_none, thinking_or_none, ir_block_to_anthropic_block,
  ir_to_content, messages_of_ir,
}

-- The forced tool has two names in the gateway's form, and one on the wire.
abbrev pub kept_choice : AnthropicToolChoice → AnthropicToolChoice
kept_choice tc = record tc { type_ = if tc.type_ == "specific" then "tool" else tc.type_ }

-- Thinking is always sent as enabled.
abbrev pub enabled : AnthropicThinking → AnthropicThinking
enabled t = record t { type_ = "enabled" }

abbrev pub map_option : {A : Type 0} → (A → A) → Option A → Option A
map_option f none = none
map_option f (some a) = some (f a)

-- The text of a thinking block, which is empty where the field is absent.
abbrev pub present : Option String → Option String
present none = some ""
present (some text) = some text

module _ (json : JsonMaps) where
  open json use {Raw, Map}

  -- The arguments of a tool call, decoded and encoded again.
  abbrev pub recoded : Raw → Raw
  recoded raw = json.marshal (if json.is_empty raw then json.nil else json.unmarshal raw)

  unfoldable mutual
    -- A block keeps its type, its `cache_control`, and the fields of its type: a text, a tool call with
    -- its id, name and arguments, a tool result with its id, blocks and error flag, or a thought. A
    -- block of another type, such as an image, keeps nothing more.
    pub kept_block : AnthropicBlock Raw → AnthropicBlock Raw
    kept_block
          (anthropic_block type_ text id name input tool_use_id content is_error cache thinking) =
        let inner = kept_content content in
        if type_ == "text"
        then anthropic_block type_ text "" "" json.empty "" no_blocks false cache none
        else if type_ == "tool_use"
        then anthropic_block type_ "" id name (recoded input) "" no_blocks false cache none
        else if type_ == "tool_result"
        then anthropic_block type_ "" "" "" json.empty tool_use_id inner is_error cache none
        else if type_ == "thinking"
        then anthropic_block type_ "" "" "" json.empty "" no_blocks false cache (present thinking)
        else anthropic_block type_ "" "" "" json.empty "" no_blocks false cache none

    pub kept_content : AnthropicContent Raw → AnthropicContent Raw
    kept_content no_blocks = no_blocks
    kept_content (add_block b content) = add_block (kept_block b) (kept_content content)

  abbrev pub kept_message : AnthropicMessage Raw → AnthropicMessage Raw
  kept_message msg = record msg { content = kept_content msg.content }

  -- A request as it is written for a model: streamed, with what its blocks keep.
  abbrev pub kept_request :
      {F : Type 0} → String → AnthropicRequest F Raw Map → AnthropicRequest F Raw Map
  kept_request model raw = record raw {
    model = model;
    stream = true;
    messages = map kept_message raw.messages;
    system = kept_content raw.system;
    tool_choice = map_option kept_choice raw.tool_choice;
    thinking = map_option enabled raw.thinking;
  }

cache_struct-cache_spec : (c : Option CacheControl) → cache_struct (cache_spec c) ≡ c
cache_struct-cache_spec none = refl
cache_struct-cache_spec (some c) = refl

pub tools_of_ir-tools_to_ir :
    {Map : Type 0} (tools : List (AnthropicTool Map)) → tools_of_ir (tools_to_ir tools) ≡ tools
tools_of_ir-tools_to_ir [] = refl
tools_of_ir-tools_to_ir (t ∷ tools) = ap (λ l. t ∷ l) (tools_of_ir-tools_to_ir tools)

choice_type :
    (t : String)
    → let ir = if t == "tool" then "specific" else t in
      (if ir == "specific" then "tool" else ir) ≡ (if t == "specific" then "tool" else t)
choice_type t = elim (Bool-cases (t == "tool")) [
  | inl e ↦ rw ((eq_iff t "tool").0 e)
  | inr e ↦ rw e
]

pub tool_choice_or_none-tool_choice_to_ir :
    (tc : Option AnthropicToolChoice)
    → tool_choice_or_none (tool_choice_to_ir tc) ≡ map_option kept_choice tc
tool_choice_or_none-tool_choice_to_ir none = refl
tool_choice_or_none-tool_choice_to_ir (some tc) =
    ap (λ t. some (record { type_ = t; name = tc.name })) (choice_type tc.type_)

pub thinking_or_none-thinking_to_ir :
    (t : Option AnthropicThinking) → thinking_or_none (thinking_to_ir t) ≡ map_option enabled t
thinking_or_none-thinking_to_ir none = refl
thinking_or_none-thinking_to_ir (some t) = refl

some-text_or_empty : (t : Option String) → some (text_or_empty t) ≡ present t
some-text_or_empty none = refl
some-text_or_empty (some text) = refl

module _ (json : JsonMaps) where
  mutual
    unfolding anthropic_block_to_ir ir_block_to_anthropic_block kept_block

    block_kept :
        (b : AnthropicBlock json.Raw)
        → ir_block_to_anthropic_block json (anthropic_block_to_ir json b) ≡ kept_block json b
    block_kept
          (anthropic_block type_ text id name input tool_use_id content is_error cache thinking) =
        elim (Bool-cases (type_ == "text")) [
          | inl e ↦ rw ((eq_iff type_ "text").0 e) (rw (cache_struct-cache_spec cache))
          | inr e ↦ elim (Bool-cases (type_ == "tool_use")) [
            | inl f ↦ rw ((eq_iff type_ "tool_use").0 f) (rw (cache_struct-cache_spec cache))
            | inr f ↦ elim (Bool-cases (type_ == "tool_result")) [
              | inl g ↦
                  rw ((eq_iff type_ "tool_result").0 g)
                    (rw (cache_struct-cache_spec cache) (rw (content_kept content)))
              | inr g ↦ elim (Bool-cases (type_ == "thinking")) [
                | inl h ↦
                    rw ((eq_iff type_ "thinking").0 h)
                      (rw (cache_struct-cache_spec cache) (rw (some-text_or_empty thinking)))
                | inr h ↦ rw (e, f, g, h) (rw (e, f, g, h) (rw (cache_struct-cache_spec cache)))
              ]
            ]
          ]
        ]

    content_kept :
        (content : AnthropicContent json.Raw)
        → ir_to_content json (content_to_ir json content) ≡ kept_content json content
    content_kept no_blocks = refl
    content_kept (add_block b content) = ap₂ add_block (block_kept b) (content_kept content)

  pub blocks_kept :
      (content : AnthropicContent json.Raw)
      → ir_to_content json (content_to_ir json content) ≡ kept_content json content
  blocks_kept content = content_kept content

  pub messages_kept :
      (messages : List (AnthropicMessage json.Raw))
      → messages_of_ir json (messages_to_ir json messages) ≡ map (kept_message json) messages
  messages_kept [] = refl
  messages_kept (msg ∷ messages) = rw (content_kept msg.content) (rw (messages_kept messages))
