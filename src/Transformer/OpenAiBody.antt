-- ===== src/Transformer/OpenAiBody.antt =====
-- What IRToOpenAI of internal/shared/transformer/openai.go makes of a request of Anthropic's format.
use agentgate.Base.{
  ◌≡◌, ◌≢◌, refl, String, Option, none, some, List, [], ◌∷◌, ◌++◌, append_assoc, append-nil, map,
  ◌==◌, Bool-cases, inl, inr, eq_iff, if◌then◌else◌,
}
use agentgate.External.{JsonMaps}
use agentgate.Transformer.Ir.{
  ContentBlock, Blocks, block, no_result, result, nil, cons, Message, IrRequest,
}
use agentgate.Transformer.OpenAi.{
  OpenAiMessage, OpenAiToolCall, first_text, tool_call_of, put_block, put_blocks, new_message,
  openai_messages, openai_request, ir_to_openai, ir_role_to_openai,
}

-- A block has what its type promises.
abbrev pub HasPayload : {Map : Type 0} → ContentBlock Map → Type 0
HasPayload (block type_ text none no_result thinking cache) =
    (type_ ≢ "tool_use") × (type_ ≢ "tool_result")
HasPayload (block type_ text none (result id content is_error) thinking cache) =
    type_ ≡ "tool_result"
HasPayload (block type_ text (some use_) no_result thinking cache) = type_ ≡ "tool_use"
HasPayload (block type_ text (some use_) (result id content is_error) thinking cache) = ⊥

abbrev pub AllPayload : {Map : Type 0} → Blocks Map → Type 0
AllPayload nil = Unit {0}
AllPayload (cons c blocks) = HasPayload c × AllPayload blocks

module _ (json : JsonMaps) where
  open json use {Raw, Map}

  -- The tool calls of a block, and the text that it leaves as the message's content.
  abbrev pub calls_of_block : ContentBlock Map → List (OpenAiToolCall Raw)
  calls_of_block (block type_ text none tool_result thinking cache) = []
  calls_of_block (block type_ text (some use_) tool_result thinking cache) =
      tool_call_of json use_ ∷ []

  abbrev pub calls_of : Blocks Map → List (OpenAiToolCall Raw)
  calls_of nil = []
  calls_of (cons c blocks) = calls_of_block c ++ calls_of blocks

  abbrev pub text_of_block : ContentBlock Map → Option String → Option String
  text_of_block (block type_ text tool_use no_result thinking cache) before =
      if type_ == "text" then some text else before
  text_of_block (block type_ text tool_use (result id content is_error) thinking cache) before =
      some (first_text content)

  abbrev pub last_text : Blocks Map → Option String → Option String
  last_text nil before = before
  last_text (cons c blocks) before = last_text blocks (text_of_block c before)

  abbrev pub id_of_block : ContentBlock Map → String → String
  id_of_block (block type_ text tool_use no_result thinking cache) before = before
  id_of_block (block type_ text tool_use (result id content is_error) thinking cache) before = id

  abbrev pub last_id : Blocks Map → String → String
  last_id nil before = before
  last_id (cons c blocks) before = last_id blocks (id_of_block c before)

  -- What a message with these blocks is for OpenAI.
  abbrev pub sent_from : OpenAiMessage Raw → Blocks Map → OpenAiMessage Raw
  sent_from om blocks = record {
    role = om.role;
    content = last_text blocks om.content;
    tool_calls = om.tool_calls ++ calls_of blocks;
    tool_call_id = last_id blocks om.tool_call_id;
  }

  abbrev pub sent : Message Map → OpenAiMessage Raw
  sent msg = record {
    role = ir_role_to_openai msg.role;
    content = last_text msg.content none;
    tool_calls = calls_of msg.content;
    tool_call_id = last_id msg.content "";
  }

  abbrev pub AllMessages : List (Message Map) → Type 0
  AllMessages [] = Unit {0}
  AllMessages (msg ∷ messages) = AllPayload msg.content × AllMessages messages

  abbrev sent_block : OpenAiMessage Raw → ContentBlock Map → OpenAiMessage Raw
  sent_block om c = record {
    role = om.role;
    content = text_of_block c om.content;
    tool_calls = om.tool_calls ++ calls_of_block c;
    tool_call_id = id_of_block c om.tool_call_id;
  }

  put_block_lem :
      (om : OpenAiMessage Raw) (c : ContentBlock Map)
      → HasPayload c
      → put_block json om c ≡ some (sent_block om c)
  put_block_lem om (block t text none no_result thinking cache) h =
      elim (Bool-cases (t == "text")) [
        | inl e ↦ rw e (rw (append-nil om.tool_calls))
        | inr e ↦ elim (Bool-cases (t == "tool_use")) [
          | inl f ↦ absurd (h.0 ((eq_iff t "tool_use").0 f))
          | inr f ↦ elim (Bool-cases (t == "tool_result")) [
            | inl g ↦ absurd (h.1 ((eq_iff t "tool_result").0 g))
            | inr g ↦ rw (e, f, g) (rw (append-nil om.tool_calls))
          ]
        ]
      ]
  put_block_lem om (block t text none (result id content is_error) thinking cache) h =
      rw h (rw (append-nil om.tool_calls))
  put_block_lem om (block t text (some use_) no_result thinking cache) h = rw h
  put_block_lem om (block t text (some use_) (result id content is_error) thinking cache) h =
      absurd h

  put_blocks_lem :
      (blocks : Blocks Map) (om : OpenAiMessage Raw)
      → AllPayload blocks
      → put_blocks json blocks om ≡ some (sent_from om blocks)
  unfolding put_blocks
  put_blocks_lem nil om h = rw (append-nil om.tool_calls)
  put_blocks_lem (cons c blocks) om h =
      rw (put_block_lem om c h.0, put_blocks)
        (rw (put_blocks_lem blocks (sent_block om c) h.1)
          (rw (append_assoc om.tool_calls (calls_of_block c) (calls_of blocks))))

  openai_messages_lem :
      (messages : List (Message Map))
      → AllMessages messages
      → openai_messages json messages ≡ some (map sent messages)
  unfolding openai_messages
  openai_messages_lem [] h = refl
  openai_messages_lem (msg ∷ messages) h =
      rw (put_blocks_lem msg.content (new_message json msg.role) h.0)
        (rw (openai_messages_lem messages h.1))

  pub ir_to_openai_lem :
      {F : Type 0} (req : IrRequest F Map)
      → AllMessages req.messages
      → ir_to_openai json req ≡ some (openai_request json req (map sent req.messages))
  unfolding ir_to_openai
  ir_to_openai_lem req h = rw (openai_messages_lem req.messages h, ir_to_openai)
