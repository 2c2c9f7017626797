-- ===== src/Provider/Request.antt =====
-- What an adapter sends and what it makes of the answer: internal/gw/provider/adapter.go, errors.go,
-- anthropic.go and openai_compat.go. Serialised JSON is the value that it is the text of, and an empty
-- slice is `none`.
use agentgate.Base.{
  ℕ, ℤ, String, Bool, true, false, Option, none, some, List, [], Dict, leb, ltb, if◌then◌else◌,
  Result, ok, err,
}
use agentgate.Transformer.Anthropic.{
  AnthropicContent, no_blocks, AnthropicMessage, AnthropicTool, AnthropicToolChoice,
  AnthropicThinking, AnthropicRequest,
}
use agentgate.Transformer.OpenAi.{OpenAiRequest}

pub data Payload (F Raw Map : Type 0) : Type 0 where
  anthropic_messages : List (AnthropicMessage Raw) → Payload F Raw Map
  openai_body : OpenAiRequest F Raw Map → Payload F Raw Map

pub record ProviderRequest (F Raw Map : Type 0) : Type 0 where
  pub model : String
  pub messages : Payload F Raw Map
  pub max_tokens : ℤ
  pub temperature : Option F
  pub stream : Bool
  pub api_key : String
  pub url : String
  pub system : Option (AnthropicContent Raw)
  pub tools : Option (List (AnthropicTool Map))
  pub tool_choice : Option AnthropicToolChoice
  pub metadata : Dict String
  pub thinking : Option AnthropicThinking

abbrev pub or_no_blocks : {Raw : Type 0} → Option (AnthropicContent Raw) → AnthropicContent Raw
or_no_blocks none = no_blocks
or_no_blocks (some content) = content

abbrev pub or_no_tools :
    {Map : Type 0} → Option (List (AnthropicTool Map)) → List (AnthropicTool Map)
or_no_tools none = []
or_no_tools (some tools) = tools

-- An OpenAI body is no array, so it leaves no messages.
abbrev pub messages_of : {F Raw Map : Type 0} → Payload F Raw Map → List (AnthropicMessage Raw)
messages_of (anthropic_messages msgs) = msgs
messages_of (openai_body body) = []

-- The body that anthropicShapedDo sends. A field that it leaves out is empty.
unfoldable pub anthropic_shaped_body :
    {F Raw Map : Type 0} → ProviderRequest F Raw Map → Bool → AnthropicRequest F Raw Map
anthropic_shaped_body req stream = record {
  model = req.model;
  messages = messages_of req.messages;
  system = or_no_blocks req.system;
  tools = or_no_tools req.tools;
  tool_choice = req.tool_choice;
  max_tokens = req.max_tokens;
  temperature = req.temperature;
  stream = stream;
  thinking = req.thinking;
  metadata = req.metadata;
}

-- What the HTTP client reports: no request could be made, no answer came, or an answer with a status.
pub data Answer (Body : Type 0) : Type 0 where
  no_request unreachable : Answer Body
  response : ℕ → Body → Answer Body

-- UpstreamError with its status, any other error, and an error that tryStream wraps.
pub data StreamError : Type 0 where
  upstream_error : ℕ → StreamError
  failed : StreamError
  retry_failed : StreamError → StreamError

-- errors.As for an UpstreamError.
abbrev pub is_upstream_error : StreamError → Bool
is_upstream_error (upstream_error status) = true
is_upstream_error failed = false
is_upstream_error (retry_failed e) = is_upstream_error e

-- The end of anthropicShapedDo.
unfoldable pub anthropic_shaped_result : {Body : Type 0} → Answer Body → Result StreamError Body
anthropic_shaped_result no_request = err failed
anthropic_shaped_result unreachable = err failed
anthropic_shaped_result (response status body) =
    if leb 400 status
    then (if ltb status 500 then err (upstream_error status) else err failed)
    else ok body

-- The end of OpenAICompatAdapter.do.
unfoldable pub openai_compat_result : {Body : Type 0} → Answer Body → Result StreamError Body
openai_compat_result no_request = err failed
openai_compat_result unreachable = err failed
openai_compat_result (response status body) = if leb 400 status then err failed else ok body

pub data Adapter : Type 0 where
  anthropic anthropic_compat openai_compat : Adapter

-- Stream of each adapter, from the answer to its request on.
unfoldable pub stream_result : {Body : Type 0} → Adapter → Answer Body → Result StreamError Body
stream_result anthropic answer = anthropic_shaped_result answer
stream_result anthropic_compat answer = anthropic_shaped_result answer
stream_result openai_compat answer = openai_compat_result answer
