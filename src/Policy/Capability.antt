-- ===== src/Policy/Capability.antt =====
-- The capabilities that a request needs: internal/gw/policy/capability_detect.go. The results of
-- json.Unmarshal are an interface.
use agentgate.Base.{
  String, Bool, true, false, not, ◌||◌, List, [], ◌∷◌, ◌++◌, Option, none, some, ◌==◌, contains,
  if◌then◌else◌,
}

unfoldable pub keep_hard : List String → List String → List String
keep_hard allowed [] = []
keep_hard allowed (c ∷ detected) =
    let rest = keep_hard allowed detected in if not (contains allowed c) then c ∷ rest else rest

unfoldable pub filter_degradable : List String → List String → List String
filter_degradable detected [] = detected
filter_degradable detected (a ∷ allowed) = keep_hard (a ∷ allowed) detected

-- A block of content: its type, and whether it has a cache_control field.
pub record ContentBlock : Type 0 where
  pub type_ : String
  pub cache_control : Bool

-- A body that parses. `Raw` is JSON that is not parsed yet; `system` is absent where it is empty, and
-- `thinking` says whether the field is there and is not null.
pub record MessagesBody (Raw : Type 0) : Type 0 where
  pub messages : List Raw
  pub system : Option Raw
  pub thinking : Bool

-- json.Unmarshal of raw JSON into an array of blocks, into one block, and of a body.
pub record Parser : Type 1 where
  pub Raw : Type 0
  pub blocks : Raw → Option (List ContentBlock)
  pub block : Raw → Option ContentBlock
  pub body : Raw → Option (MessagesBody Raw)

abbrev pub any_block : (ContentBlock → Bool) → List ContentBlock → Bool
any_block test [] = false
any_block test (b ∷ bs) = if test b then true else any_block test bs

abbrev pub single_block : (ContentBlock → Bool) → Option ContentBlock → Bool
single_block test none = false
single_block test (some b) = test b

abbrev pub block_or_blocks :
    (ContentBlock → Bool) → Option (List ContentBlock) → Option ContentBlock → Bool
block_or_blocks test none single = single_block test single
block_or_blocks test (some bs) single = any_block test bs

module _ (parser : Parser) where
  open parser use {Raw, blocks, block, body}

  unfoldable pub has_cache_control_in_array : Raw → Bool
  has_cache_control_in_array raw = block_or_blocks (λ b. b.cache_control) (blocks raw) (block raw)

  unfoldable pub has_vision_in_array : Raw → Bool
  has_vision_in_array raw = block_or_blocks (λ b. b.type_ == "image") (blocks raw) (block raw)

  -- The loop over the messages.
  unfoldable pub scan_messages : List Raw → Bool → Bool → Bool × Bool
  scan_messages [] cache_control vision = (cache_control, vision)
  scan_messages (msg ∷ messages) cache_control vision =
      scan_messages messages (cache_control || has_cache_control_in_array msg)
        (vision || has_vision_in_array msg)

  abbrev pub in_system : Option Raw → Bool
  in_system none = false
  in_system (some raw) = has_cache_control_in_array raw

  abbrev pub when_set : Bool → String → List String
  when_set true cap = cap ∷ []
  when_set false cap = []

  abbrev pub capabilities : MessagesBody Raw → List String
  capabilities mb =
      let (cache_control, vision) = scan_messages mb.messages (in_system mb.system) false in
      when_set cache_control "cache_control"
      ++ (when_set mb.thinking "extended_thinking" ++ when_set vision "vision")

  abbrev pub capabilities_or_none : Option (MessagesBody Raw) → List String
  capabilities_or_none none = []
  capabilities_or_none (some mb) = capabilities mb

  unfoldable pub detect_capabilities : Raw → List String
  detect_capabilities raw = capabilities_or_none (body raw)
