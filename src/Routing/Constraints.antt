-- ===== src/Routing/Constraints.antt =====
-- The constraints of a decision on a pool member: satisfiesConstraints, trustTierRank and
-- memberSupports of internal/gw/routing/selector.go.
use agentgate.Base.{
  ℕ, ℤ, String, Bool, true, false, not, List, [], ◌∷◌, Option, none, some, ltb, ◌==◌, contains,
  if◌then◌else◌,
}
use agentgate.Config.Types.{ModelPricing, PricingConfig}
use agentgate.Config.Pricing.{lookup_model}
use agentgate.Policy.Decision.{Decision}

pub record Member : Type 0 where
  pub endpoint_id : String
  pub wire : String
  pub vendor_id : String
  pub model : String
  pub url : String
  pub trust_tier : String
  pub data_residency : String
  pub streaming : Bool
  pub private : Bool
  pub original_weight : ℤ

unfoldable pub trust_tier_rank : String → ℕ
trust_tier_rank tier =
    if tier == "private"
    then 3
    else if tier == "partner"
    then 2
    else if tier == "vendor"
    then 1
    else 0

abbrev priced_capabilities : List String
priced_capabilities = "tools" ∷ "cache_control" ∷ "extended_thinking" ∷ "vision" ∷ []

unfoldable pub residency_allowed : Member → List String → Bool
residency_allowed m [] = true
residency_allowed m (r ∷ rs) = contains (r ∷ rs) m.data_residency

unfoldable pub tier_allowed : Member → String → Bool
unfolding trust_tier_rank
tier_allowed m required =
    if required == ""
    then true
    else not (ltb (trust_tier_rank m.trust_tier) (trust_tier_rank required))

module _ {F : Type 0} where
  -- The inner switch, at the pricing row that was found.
  unfoldable pub row_supports : String → ModelPricing F → Bool
  row_supports cap row =
      if cap == "tools"
      then row.capabilities.tools
      else if cap == "cache_control"
      then row.capabilities.cache_control
      else if cap == "extended_thinking"
      then row.capabilities.extended_thinking
      else if cap == "vision"
      then row.capabilities.vision
      else false

  unfoldable pub row_of : Option (PricingConfig F) → Member → Option (ModelPricing F)
  row_of none m = none
  row_of (some pricing) m = lookup_model pricing.models m.vendor_id m.model

  unfoldable pub member_supports : Member → String → Option (PricingConfig F) → Bool
  unfolding row_of row_supports
  member_supports m cap pricing =
      if cap == "streaming"
      then m.streaming
      else if contains priced_capabilities cap
      then elim (row_of pricing m) [ none ↦ false | some row ↦ row_supports cap row ]
      else false

  -- The loop over RequiredCapabilities.
  unfoldable pub supports_all : Member → List String → Option (PricingConfig F) → Bool
  supports_all m [] pricing = true
  supports_all m (cap ∷ caps) pricing =
      if not (member_supports m cap pricing) then false else supports_all m caps pricing

  unfoldable pub satisfies_constraints : Member → Option Decision → Option (PricingConfig F) → Bool
  satisfies_constraints m none pricing = true
  satisfies_constraints m (some dec) pricing =
      if not (tier_allowed m dec.required_trust_tier)
      then false
      else if not (residency_allowed m dec.required_data_residency)
      then false
      else supports_all m dec.required_capabilities pricing
