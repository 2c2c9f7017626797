-- ===== src/Cost/Source.antt =====
-- When a cost of internal/gw/cost/cost.go counts as estimated, for the pricing tables that
-- internal/gw/config/pricing.go accepts.
use agentgate.Base.{
  ◌≡◌, refl, ap, String, true, false, ◌&&◌, List, [], ◌∷◌, some, ◌==◌, Bool-cases, Option-cases,
  inl, inr, arith, ok, map,
}
use mathlib.Core.Option
use agentgate.Config.Types.{ModelPricing, PricingConfig}
use agentgate.Config.Pools.{is_none}
use agentgate.Config.Pricing.{lookup_model, validate_pricing, default_currency, default_currencies}
use agentgate.Config.Pricing.Valid.{validate_pricing-lookup_model}
use agentgate.Cost.{Usage, lookup_price, price_usage, calculate}
use agentgate.External.{Float64}

module _ (float : Float64) where
  open float use {F}

  priced_source :
      (row : ModelPricing F) (u : Usage)
      → is_none row.cache_read_price ≡ false
      → is_none row.cache_create_price ≡ false
      → (price_usage float row u).source ≡ "provider_usage"
  unfolding price_usage
  priced_source row u read create = ground arith

  -- With a pricing table that passes its check, the cost of a model that caches is never estimated.
  pub calculate-validate_pricing :
      (pricing : PricingConfig F) (vendor model : String) (u : Usage) (row : ModelPricing F)
      → validate_pricing float pricing ≡ ok tt
      → lookup_model pricing.models vendor model ≡ some row
      → row.capabilities.cache_control ≡ true
      → (calculate float (some pricing) vendor model u).source ≡ "provider_usage"
  unfolding calculate lookup_price
  calculate-validate_pricing pricing vendor model u row valid found caches =
      let (read, create) =
        (validate_pricing-lookup_model float pricing valid).1 vendor model row found caches in
      rw (found, calculate) (priced_source row u read create)

  lookup_model-default :
      (models : List (ModelPricing F)) (vendor model : String)
      → lookup_model (map default_currency models) vendor model
        ≡ Option.map default_currency (lookup_model models vendor model)
  unfolding lookup_model
  lookup_model-default [] vendor model = refl
  lookup_model-default (m ∷ models) vendor model = elim (Bool-cases (m.currency == "")) [
    | inl e ↦ elim (Bool-cases ((m.vendor == vendor) && (m.model == model))) [
      | inl f ↦ rw (e, map) (rw f (rw e))
      | inr f ↦ rw (e, map) (rw f (lookup_model-default models vendor model))
    ]
    | inr e ↦ elim (Bool-cases ((m.vendor == vendor) && (m.model == model))) [
      | inl f ↦ rw (e, map) (rw f (rw e))
      | inr f ↦ rw (e, map) (rw f (lookup_model-default models vendor model))
    ]
  ]

  price_usage-default_currency :
      (m : ModelPricing F) (u : Usage)
      → price_usage float (default_currency m) u ≡ price_usage float m u
  unfolding price_usage
  price_usage-default_currency m u = elim (Bool-cases (m.currency == "")) [
    | inl e ↦ rw e
    | inr e ↦ let same : default_currency m ≡ m = rw e in ap (λ r. price_usage float r u) same
  ]

  -- Filling in the default currencies changes no cost: the calculator takes the same default.
  pub calculate-default_currencies :
      (pricing : PricingConfig F) (vendor model : String) (u : Usage)
      → calculate float (some (default_currencies pricing)) vendor model u
        ≡ calculate float (some pricing) vendor model u
  unfolding calculate lookup_price default_currencies
  calculate-default_currencies pricing vendor model u =
      let same = lookup_model-default pricing.models vendor model in
      elim (Option-cases (lookup_model pricing.models vendor model)) [
        | inl e ↦ rw (e, calculate) (rw (rw e at same, calculate))
        | inr (row, e) ↦
            rw (e, calculate) (rw (rw e at same, calculate) (price_usage-default_currency row u))
      ]
