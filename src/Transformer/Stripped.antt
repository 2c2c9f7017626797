-- ===== src/Transformer/Stripped.antt =====
-- What is left of a request for a provider that is not Anthropic's:
-- internal/shared/transformer/degraded.go.
use agentgate.Base.{
  ◌≡◌, refl, String, Bool, true, false, ◌||◌, none, some, List, [], ◌∷◌, ◌++◌, map, Bool-cases, inl,
  inr, if◌then◌else◌, arith,
}
use agentgate.Transformer.Ir.{ContentBlock, Blocks, block, nil, cons, Message, IrRequest}
use agentgate.Transformer.Degraded.{
  append_str_unique, is_cached, uncached, strip_blocks, strip_messages, is_thinking,
  strip_anthropic_features,
}

-- The names of the features among two that are in use.
abbrev pub in_use : Bool → Bool → List String
in_use thinks cached =
    (if thinks then "extended_thinking" ∷ [] else [])
    ++ (if cached then "cache_control" ∷ [] else [])

module _ {Map : Type 0} where
  abbrev pub any_cached : Blocks Map → Bool
  any_cached nil = false
  any_cached (cons c blocks) = is_cached c || any_cached blocks

  abbrev pub any_cached_message : List (Message Map) → Bool
  any_cached_message [] = false
  any_cached_message (msg ∷ messages) = any_cached msg.content || any_cached_message messages

  abbrev pub all_uncached : Blocks Map → Blocks Map
  all_uncached nil = nil
  all_uncached (cons c blocks) = cons (uncached c) (all_uncached blocks)

append_in_use :
    (thinks cached c : Bool)
    → (if c then append_str_unique (in_use thinks cached) "cache_control" else in_use thinks cached)
      ≡ in_use thinks (cached || c)
unfolding append_str_unique
append_in_use true true true = refl
append_in_use true true false = refl
append_in_use true false true = refl
append_in_use true false false = refl
append_in_use false true true = refl
append_in_use false true false = refl
append_in_use false false true = refl
append_in_use false false false = refl

or_assoc : (p q r : Bool) → ((p || q) || r) ≡ (p || (q || r))
or_assoc p q r = ground arith

or_false : (p : Bool) → (p || false) ≡ p
or_false p = ground arith

module _ {Map : Type 0} where
  left_uncached : (c : ContentBlock Map) → (if is_cached c then uncached c else c) ≡ uncached c
  left_uncached (block type_ text tool_use tool_result thinking none) = refl
  left_uncached (block type_ text tool_use tool_result thinking (some spec)) = refl

  strip_blocks_lem :
      (thinks : Bool) (blocks : Blocks Map) (cached : Bool)
      → strip_blocks (in_use thinks cached) blocks
        ≡ (in_use thinks (cached || any_cached blocks), all_uncached blocks)
  unfolding strip_blocks
  strip_blocks_lem thinks nil cached = rw (or_false cached)
  strip_blocks_lem thinks (cons c blocks) cached = rw (append_in_use thinks cached (is_cached c)) (
      rw (strip_blocks_lem thinks blocks (cached || is_cached c))
        (rw (left_uncached c, or_assoc cached (is_cached c) (any_cached blocks))))

  abbrev pub uncached_message : Message Map → Message Map
  uncached_message msg = record msg { content = all_uncached msg.content }

  strip_messages_lem :
      (thinks : Bool) (messages : List (Message Map)) (cached : Bool)
      → strip_messages (in_use thinks cached) messages
        ≡ (in_use thinks (cached || any_cached_message messages), map uncached_message messages)
  unfolding strip_messages
  strip_messages_lem thinks [] cached = rw (or_false cached)
  strip_messages_lem thinks (msg ∷ messages) cached =
      rw (strip_blocks_lem thinks msg.content cached) (
        rw (strip_messages_lem thinks messages (cached || any_cached msg.content))
          (rw (or_assoc cached (any_cached msg.content) (any_cached_message messages))))

module _ {F Map : Type 0} where
  stripped_from :
      (req : IrRequest F Map) (thinks : Bool)
      → strip_blocks (strip_messages (in_use thinks false) req.messages).0 req.system ≡ (
        in_use thinks (any_cached_message req.messages || any_cached req.system),
        all_uncached req.system,
      )
  stripped_from req thinks =
      rw (strip_messages_lem thinks req.messages false)
        (strip_blocks_lem thinks req.system (any_cached_message req.messages))

  -- The list of degraded features names thinking exactly if it is enabled and caching exactly if a
  -- block of a message or of the system prompt asks for it, each once. The request that is left has
  -- no enabled thinking and no caching on these blocks, and is otherwise the request that came; the
  -- blocks inside a tool's result keep theirs.
  pub strip_anthropic_features_lem :
      (req : IrRequest F Map)
      → strip_anthropic_features req ≡ (
        in_use
            (is_thinking req.thinking)
            (any_cached_message req.messages || any_cached req.system),
        record req {
          messages = map uncached_message req.messages;
          system = all_uncached req.system;
          thinking = if is_thinking req.thinking then none else req.thinking;
        },
      )
  unfolding strip_anthropic_features
  strip_anthropic_features_lem req = elim (Bool-cases (is_thinking req.thinking)) [
    | inl e ↦ rw e (rw (stripped_from req true) (rw (strip_messages_lem true req.messages false)))
    | inr e ↦ rw e (rw (stripped_from req false) (rw (strip_messages_lem false req.messages false)))
  ]
