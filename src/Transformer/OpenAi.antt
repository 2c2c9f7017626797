-- ===== src/Transformer/OpenAi.antt =====
-- The wire types of internal/shared/transformer/openai.go, and its conversions. `none` for a result is a
-- nil pointer that IRToOpenAI follows.
use agentgate.Base.{
  String, Bool, true, Option, none, some, List, [], ◌∷◌, ◌++◌, ℤ, ◌==◌, if◌then◌else◌,
}
use agentgate.External.{JsonMaps}
use agentgate.Transformer.Ir.{
  ToolUse, ContentBlock, ToolResult, Blocks, block, no_result, result, nil, cons, Message, Tool,
  IrRequest,
}

pub record OpenAiFunctionCall (Raw : Type 0) : Type 0 where
  pub name : String
  pub arguments : Raw

pub record OpenAiToolCall (Raw : Type 0) : Type 0 where
  pub id : String
  pub type_ : String
  pub function : OpenAiFunctionCall Raw

pub record OpenAiMessage (Raw : Type 0) : Type 0 where
  pub role : String
  pub content : Option String
  pub tool_calls : List (OpenAiToolCall Raw)
  pub tool_call_id : String

pub record OpenAiToolFunc (Map : Type 0) : Type 0 where
  pub name : String
  pub description : String
  pub parameters : Map

pub record OpenAiTool (Map : Type 0) : Type 0 where
  pub type_ : String
  pub function : OpenAiToolFunc Map

pub record OpenAiStreamOptions : Type 0 where
  pub include_usage : Bool

pub record OpenAiRequest (F Raw Map : Type 0) : Type 0 where
  pub model : String
  pub messages : List (OpenAiMessage Raw)
  pub tools : List (OpenAiTool Map)
  pub max_tokens : ℤ
  pub temperature : Option F
  pub stream : Bool
  pub stream_options : Option OpenAiStreamOptions

abbrev pub ir_role_to_openai : String → String
ir_role_to_openai role =
    if role == "assistant"
    then "assistant"
    else if role == "user"
    then "user"
    else if role == "tool"
    then "tool"
    else "user"

abbrev pub openai_tools_of_ir : {Map : Type 0} → List (Tool Map) → List (OpenAiTool Map)
openai_tools_of_ir [] = []
openai_tools_of_ir (t ∷ tools) =
    record {
      type_ = "function";
      function = record { name = t.name; description = t.description; parameters = t.input_schema };
    }
    ∷ openai_tools_of_ir tools

-- The text of the first block of a tool's result.
abbrev pub first_text : {Map : Type 0} → Blocks Map → String
first_text nil = ""
first_text (cons (block type_ text tool_use tool_result thinking cache) blocks) = text

module _ (json : JsonMaps) where
  open json use {Raw, Map}

  abbrev pub tool_call_of : ToolUse Map → OpenAiToolCall Raw
  tool_call_of use_ = record {
    id = use_.id;
    type_ = "function";
    function = record { name = use_.name; arguments = json.marshal use_.input };
  }

  abbrev pub put_tool_use : OpenAiMessage Raw → Option (ToolUse Map) → Option (OpenAiMessage Raw)
  put_tool_use om none = none
  put_tool_use om (some use_) =
      some (record om { tool_calls = om.tool_calls ++ tool_call_of use_ ∷ [] })

  abbrev pub put_tool_result : OpenAiMessage Raw → ToolResult Map → Option (OpenAiMessage Raw)
  put_tool_result om no_result = none
  put_tool_result om (result tool_use_id content is_error) =
      some (record om { content = some (first_text content); tool_call_id = tool_use_id })

  abbrev pub put_block : OpenAiMessage Raw → ContentBlock Map → Option (OpenAiMessage Raw)
  put_block om (block type_ text tool_use tool_result thinking cache) =
      if type_ == "text"
      then some (record om { content = some text })
      else if type_ == "tool_use"
      then put_tool_use om tool_use
      else if type_ == "tool_result"
      then put_tool_result om tool_result
      else some om

  -- The loop over the blocks of a message.
  unfoldable pub put_blocks : Blocks Map → OpenAiMessage Raw → Option (OpenAiMessage Raw)
  put_blocks nil om = some om
  put_blocks (cons c blocks) om = elim (put_block om c) [
    | none ↦ none
    | some next ↦ put_blocks blocks next
  ]

  abbrev pub cons_message :
      Option (OpenAiMessage Raw)
      → Option (List (OpenAiMessage Raw))
      → Option (List (OpenAiMessage Raw))
  cons_message (some om) (some rest) = some (om ∷ rest)
  cons_message none rest = none
  cons_message (some om) none = none

  abbrev pub new_message : String → OpenAiMessage Raw
  new_message role = record {
    role = ir_role_to_openai role;
    content = none;
    tool_calls = [];
    tool_call_id = "";
  }

  unfoldable pub openai_messages : List (Message Map) → Option (List (OpenAiMessage Raw))
  unfolding put_blocks
  openai_messages [] = some []
  openai_messages (msg ∷ messages) =
      cons_message (put_blocks msg.content (new_message msg.role)) (openai_messages messages)

  abbrev pub openai_request :
      {F : Type 0} → IrRequest F Map → List (OpenAiMessage Raw) → OpenAiRequest F Raw Map
  openai_request req messages = record {
    model = req.model;
    messages = messages;
    tools = openai_tools_of_ir req.tools;
    max_tokens = req.max_tokens;
    temperature = req.temperature;
    stream = req.stream;
    stream_options = if req.stream then some (record { include_usage = true }) else none;
  }

  unfoldable pub ir_to_openai : {F : Type 0} → IrRequest F Map → Option (OpenAiRequest F Raw Map)
  unfolding openai_messages
  ir_to_openai req = elim (openai_messages req.messages) [
    | none ↦ none
    | some messages ↦ some (openai_request req messages)
  ]
