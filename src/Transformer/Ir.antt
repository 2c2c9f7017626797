-- ===== src/Transformer/Ir.antt =====
-- internal/shared/ir/types.go, and IRRequest of internal/shared/transformer/anthropic.go. `Map` is
-- `map[string]any`, a pointer is an Option, and a slice of blocks is `Blocks`, empty where it is nil.
use agentgate.Base.{String, Bool, Option, List, ℤ, Dict}

pub record CacheControlSpec : Type 0 where
  pub type_ : String
  pub ttl : String

pub record ToolUse (Map : Type 0) : Type 0 where
  pub id : String
  pub name : String
  pub input : Map

pub record ThinkingBlock : Type 0 where
  pub text : String

-- `block` has the fields type, text, tool_use, tool_result, thinking and cache_control. A result of a
-- tool holds blocks in its turn; `no_result` is a nil pointer.
mutual
  pub data ContentBlock (Map : Type 0) : Type 0 where
    block :
        String
        → String
        → Option (ToolUse Map)
        → ToolResult Map
        → Option ThinkingBlock
        → Option CacheControlSpec
        → ContentBlock Map

  pub data ToolResult (Map : Type 0) : Type 0 where
    no_result : ToolResult Map
    result : String → Blocks Map → Bool → ToolResult Map

  pub data Blocks (Map : Type 0) : Type 0 where
    nil : Blocks Map
    cons : ContentBlock Map → Blocks Map → Blocks Map

pub record Message (Map : Type 0) : Type 0 where
  pub role : String
  pub content : Blocks Map

pub record Tool (Map : Type 0) : Type 0 where
  pub name : String
  pub description : String
  pub input_schema : Map

pub record ToolChoice : Type 0 where
  pub type_ : String
  pub name : String

pub record ThinkingSpec : Type 0 where
  pub enabled : Bool
  pub budget_tokens : ℤ

-- `F` is float64.
pub record IrRequest (F Map : Type 0) : Type 0 where
  pub model : String
  pub messages : List (Message Map)
  pub system : Blocks Map
  pub tools : List (Tool Map)
  pub tool_choice : Option ToolChoice
  pub max_tokens : ℤ
  pub temperature : Option F
  pub stream : Bool
  pub thinking : Option ThinkingSpec
  pub metadata : Dict String
