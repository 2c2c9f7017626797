-- ===== src/Transformer/RoundTrip.antt =====
-- A request written in Anthropic's format for a provider means what the client's request meant:
-- internal/shared/transformer/anthropic.go.
use agentgate.Base.{
  ◌≡◌, refl, ap, ap₂, String, Option, none, some, List, [], ◌∷◌, ◌==◌, Bool-cases, inl, inr, eq_iff,
  if◌then◌else◌,
}
use agentgate.External.{JsonMaps}
use agentgate.Transformer.Ir.{cons}
use agentgate.Transformer.Anthropic.{
  CacheControl, AnthropicBlock, AnthropicContent, anthropic_block, no_blocks, add_block,
  AnthropicMessage, AnthropicTool, AnthropicToolChoice, AnthropicThinking,
}
use agentgate.Transformer.ToIr.{
  cache_spec, parse_json_map, anthropic_block_to_ir, content_to_ir, tools_to_ir, messages_to_ir,
  tool_choice_to_ir, thinking_to_ir,
}
use agentgate.Transformer.FromIr.{
  cache_struct, tools_of_ir, tool_choice_or_none, thinking_or_none, ir_block_to_anthropic_block,
  ir_to_content, messages_of_ir,
}

cache_twice : (c : Option CacheControl) → cache_spec (cache_struct (cache_spec c)) ≡ cache_spec c
cache_twice none = refl
cache_twice (some c) = refl

choice_type_twice :
    (t : String)
    → let ir = if t == "tool" then "specific" else t in
      let wire = if ir == "specific" then "tool" else ir in
      (if wire == "tool" then "specific" else wire) ≡ ir
choice_type_twice t = elim (Bool-cases (t == "tool")) [
  | inl e ↦ rw e
  | inr e ↦ rw e (elim (Bool-cases (t == "specific")) [
    | inl f ↦ rw ((eq_iff t "specific").0 f)
    | inr f ↦ rw f (rw e)
  ])
]

pub tool_choice_twice :
    (tc : Option AnthropicToolChoice)
    → tool_choice_to_ir (tool_choice_or_none (tool_choice_to_ir tc)) ≡ tool_choice_to_ir tc
tool_choice_twice none = refl
tool_choice_twice (some tc) =
    ap (λ t. some (record { type_ = t; name = tc.name })) (choice_type_twice tc.type_)

pub thinking_twice :
    (t : Option AnthropicThinking)
    → thinking_to_ir (thinking_or_none (thinking_to_ir t)) ≡ thinking_to_ir t
thinking_twice none = refl
thinking_twice (some t) = refl

pub tools_twice :
    {Map : Type 0} (tools : List (AnthropicTool Map))
    → tools_to_ir (tools_of_ir (tools_to_ir tools)) ≡ tools_to_ir tools
tools_twice [] = refl
tools_twice (t ∷ tools) = rw (tools_twice tools)

module _ (json : JsonMaps) where
  -- A decoded map survives its encoding.
  parse_json_map_twice :
      (raw : json.Raw)
      → parse_json_map json (json.marshal (parse_json_map json raw)) ≡ parse_json_map json raw
  parse_json_map_twice raw = elim (Bool-cases (json.is_empty raw)) [
    | inl e ↦ rw e (
        rw (← json.unmarshal-null)
          (rw (json.is_empty-marshal json.null) (json.unmarshal-marshal json.null)))
    | inr e ↦ rw e (rw (json.is_empty-marshal raw) (json.unmarshal-marshal raw))
  ]

  mutual
    unfolding anthropic_block_to_ir ir_block_to_anthropic_block

    block_twice :
        (b : AnthropicBlock json.Raw)
        → anthropic_block_to_ir json
            (ir_block_to_anthropic_block json (anthropic_block_to_ir json b))
          ≡ anthropic_block_to_ir json b
    block_twice
          (anthropic_block type_ text id name input tool_use_id content is_error cache thinking) =
        elim (Bool-cases (type_ == "text")) [
          | inl e ↦ rw ((eq_iff type_ "text").0 e) (rw (cache_twice cache))
          | inr e ↦ elim (Bool-cases (type_ == "tool_use")) [
            | inl f ↦
                rw ((eq_iff type_ "tool_use").0 f)
                  (rw (cache_twice cache) (rw (parse_json_map_twice input)))
            | inr f ↦ elim (Bool-cases (type_ == "tool_result")) [
              | inl g ↦
                  rw ((eq_iff type_ "tool_result").0 g)
                    (rw (cache_twice cache) (rw (content_twice content)))
              | inr g ↦ elim (Bool-cases (type_ == "thinking")) [
                | inl h ↦ rw ((eq_iff type_ "thinking").0 h) (rw (cache_twice cache))
                | inr h ↦
                    rw (e, f, g, h) (rw (e, f, g, h) (rw (e, f, g, h) (rw (cache_twice cache))))
              ]
            ]
          ]
        ]

    content_twice :
        (content : AnthropicContent json.Raw)
        → content_to_ir json (ir_to_content json (content_to_ir json content))
          ≡ content_to_ir json content
    content_twice no_blocks = refl
    content_twice (add_block b content) = ap₂ cons (block_twice b) (content_twice content)

  pub blocks_twice :
      (content : AnthropicContent json.Raw)
      → content_to_ir json (ir_to_content json (content_to_ir json content))
        ≡ content_to_ir json content
  blocks_twice content = content_twice content

  pub messages_twice :
      (messages : List (AnthropicMessage json.Raw))
      → messages_to_ir json (messages_of_ir json (messages_to_ir json messages))
        ≡ messages_to_ir json messages
  messages_twice [] = refl
  messages_twice (msg ∷ messages) = rw (content_twice msg.content) (rw (messages_twice messages))
