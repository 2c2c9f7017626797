-- ===== src/Transformer/Anthropic.antt =====
-- The wire types of internal/shared/transformer/anthropic.go. `Raw` is json.RawMessage.
use agentgate.Base.{String, Bool, Option, List, ℤ, Dict}

-- The anonymous struct of a block's `cache_control`.
pub record CacheControl : Type 0 where
  pub type_ : String

-- `anthropic_block` has the fields type, text, id, name, input, tool_use_id, content, is_error,
-- cache_control and thinking.
mutual
  pub data AnthropicBlock (Raw : Type 0) : Type 0 where
    anthropic_block :
        String
        → String
        → String
        → String
        → Raw
        → String
        → AnthropicContent Raw
        → Bool
        → Option CacheControl
        → Option String
        → AnthropicBlock Raw

  pub data AnthropicContent (Raw : Type 0) : Type 0 where
    no_blocks : AnthropicContent Raw
    add_block : AnthropicBlock Raw → AnthropicContent Raw → AnthropicContent Raw

pub record AnthropicMessage (Raw : Type 0) : Type 0 where
  pub role : String
  pub content : AnthropicContent Raw

pub record AnthropicTool (Map : Type 0) : Type 0 where
  pub name : String
  pub description : String
  pub input_schema : Map

pub record AnthropicToolChoice : Type 0 where
  pub type_ : String
  pub name : String

pub record AnthropicThinking : Type 0 where
  pub type_ : String
  pub budget_tokens : ℤ

pub record AnthropicRequest (F Raw Map : Type 0) : Type 0 where
  pub model : String
  pub messages : List (AnthropicMessage Raw)
  pub system : AnthropicContent Raw
  pub tools : List (AnthropicTool Map)
  pub tool_choice : Option AnthropicToolChoice
  pub max_tokens : ℤ
  pub temperature : Option F
  pub stream : Bool
  pub thinking : Option AnthropicThinking
  pub metadata : Dict String

-- The attempts of UnmarshalJSON: the value is null, a string, an array of blocks, or none of these.
pub data ContentJson (Raw : Type 0) : Type 0 where
  null other : ContentJson Raw
  string : String → ContentJson Raw
  blocks : AnthropicContent Raw → ContentJson Raw
