-- ===== src/Transformer/Degraded.antt =====
-- internal/shared/transformer/degraded.go. The request is changed in place, so the model returns the
-- features that were degraded together with the request that is left.
use agentgate.Base.{
  String, Bool, true, false, Option, none, some, List, [], ◌∷◌, ◌==◌, if◌then◌else◌,
}
use agentgate.Transformer.Ir.{
  ContentBlock, Blocks, block, nil, cons, Message, ThinkingSpec, IrRequest,
}

unfoldable pub append_str_unique : List String → String → List String
append_str_unique [] s = s ∷ []
append_str_unique (existing ∷ slice) s =
    let longer = existing ∷ append_str_unique slice s in
    if existing == s then existing ∷ slice else longer

module _ {Map : Type 0} where
  abbrev pub is_cached : ContentBlock Map → Bool
  is_cached (block type_ text tool_use tool_result thinking none) = false
  is_cached (block type_ text tool_use tool_result thinking (some spec)) = true

  abbrev pub uncached : ContentBlock Map → ContentBlock Map
  uncached (block type_ text tool_use tool_result thinking cache) =
      block type_ text tool_use tool_result thinking none

  -- The loop over the blocks of a message, or of the system prompt.
  unfoldable pub strip_blocks : List String → Blocks Map → List String × Blocks Map
  strip_blocks degraded nil = (degraded, nil)
  strip_blocks degraded (cons c blocks) =
      let (noted, left) =
        strip_blocks (if is_cached c then append_str_unique degraded "cache_control" else degraded)
          blocks in
      (noted, cons (if is_cached c then uncached c else c) left)

  unfoldable pub strip_messages :
      List String → List (Message Map) → List String × List (Message Map)
  unfolding strip_blocks
  strip_messages degraded [] = (degraded, [])
  strip_messages degraded (msg ∷ messages) =
      let (noted, content) = strip_blocks degraded msg.content in
      let (noted_all, left) = strip_messages noted messages in
      (noted_all, record msg { content = content } ∷ left)

abbrev pub is_thinking : Option ThinkingSpec → Bool
is_thinking none = false
is_thinking (some spec) = spec.enabled

unfoldable pub strip_anthropic_features :
    {F Map : Type 0} → IrRequest F Map → List String × IrRequest F Map
unfolding append_str_unique strip_blocks strip_messages
strip_anthropic_features req =
    let thinks = is_thinking req.thinking in
    let (noted, messages) =
      strip_messages (if thinks then "extended_thinking" ∷ [] else []) req.messages in
    let (degraded, system) = strip_blocks noted req.system in
    (
      degraded,
      record req {
        messages = messages;
        system = system;
        thinking = if thinks then none else req.thinking;
      },
    )
