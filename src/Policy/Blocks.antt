-- ===== src/Policy/Blocks.antt =====
-- The blocks of a body of Anthropic's protocol: internal/gw/policy/capability_detect.go.
use agentgate.Base.{
  ◌⊎◌, ◌↔◌, ◌≡◌, refl, Bool, true, false, ◌||◌, List, [], ◌∷◌, Option, none, some, Bool-cases, inl,
  inr,
}
use agentgate.Policy.Capability.{ContentBlock, Parser, any_block, block_or_blocks}

abbrev pub any_message : {Raw : Type 0} → (Raw → Bool) → List Raw → Bool
any_message test [] = false
any_message test (msg ∷ messages) = test msg || any_message test messages

abbrev pub AnyOf : {A : Type 0} → (A → Type 0) → List A → Type 0
AnyOf P [] = ⊥
AnyOf P (x ∷ xs) = P x ⊎ AnyOf P xs

abbrev pub IsImage : ContentBlock → Type 0
IsImage b = b.type_ ≡ "image"

abbrev pub IsCached : ContentBlock → Type 0
IsCached b = b.cache_control ≡ true

-- A block of a value: of the array that it is, or else the single block that it is.
abbrev pub InForm :
    (ContentBlock → Type 0) → Option (List ContentBlock) → Option ContentBlock → Type 0
InForm P (some bs) single = AnyOf P bs
InForm P none (some b) = P b
InForm P none none = ⊥

abbrev pub HasBlock : (parser : Parser) → (ContentBlock → Type 0) → parser.Raw → Type 0
HasBlock parser P raw = InForm P (parser.blocks raw) (parser.block raw)

abbrev pub InSystem : {Raw : Type 0} → (Raw → Type 0) → Option Raw → Type 0
InSystem P none = ⊥
InSystem P (some raw) = P raw

pub or_iff :
    (p : Bool) {q : Bool} {P Q : Type 0}
    → (p ≡ true) ↔ P
    → (q ≡ true) ↔ Q
    → ((p || q) ≡ true) ↔ (P ⊎ Q)
or_iff true h k = (λ e. inl (h.0 refl), λ e. refl)
or_iff false h k = (λ e. inr (k.0 e), λ s. elim s [ inl x ↦ cc (h.1 x) | inr y ↦ k.1 y ])

pub any_message_iff :
    {Raw : Type 0} (test : Raw → Bool) (P : Raw → Type 0)
    → ((raw : Raw) → (test raw ≡ true) ↔ P raw)
    → (messages : List Raw) → (any_message test messages ≡ true) ↔ AnyOf P messages
any_message_iff test P h [] = (λ e. cc, λ x. absurd x)
any_message_iff test P h (raw ∷ messages) =
    or_iff (test raw) (h raw) (any_message_iff test P h messages)

any_block_iff :
    (P : ContentBlock → Type 0) (test : ContentBlock → Bool)
    → ((b : ContentBlock) → (test b ≡ true) ↔ P b)
    → (bs : List ContentBlock) → (any_block test bs ≡ true) ↔ AnyOf P bs
any_block_iff P test h [] = (λ e. cc, λ x. absurd x)
any_block_iff P test h (b ∷ bs) = elim (Bool-cases (test b)) [
  | inl e ↦ rw e (λ x. inl ((h b).0 e), λ s. refl)
  | inr e ↦ rw e (
    λ x. inr ((any_block_iff P test h bs).0 x),
    λ s. elim s [ inl y ↦ cc ((h b).1 y, e) | inr y ↦ (any_block_iff P test h bs).1 y ],
  )
]

pub block_or_blocks_iff :
    (P : ContentBlock → Type 0) (test : ContentBlock → Bool)
    → ((b : ContentBlock) → (test b ≡ true) ↔ P b)
    → (array : Option (List ContentBlock)) (single : Option ContentBlock)
    → (block_or_blocks test array single ≡ true) ↔ InForm P array single
block_or_blocks_iff P test h (some bs) single = any_block_iff P test h bs
block_or_blocks_iff P test h none (some b) = h b
block_or_blocks_iff P test h none none = (λ e. cc, λ x. absurd x)
