-- ===== src/Cost.antt =====
-- The cost of a request: internal/gw/cost/cost.go. Token counts and cents are integers; prices are
-- floats of an interface.
pub mod Source
use agentgate.Base.{
  ℕ, ℤ, pos, String, Bool, true, false, not, ◌&&◌, ◌||◌, List, [], ◌∷◌, Option, none, some, ltb_ℤ,
  ◌==◌, if◌then◌else◌,
}
use agentgate.Config.Types.{ModelPricing, PricingConfig}
use agentgate.Config.Pools.{is_none}
use agentgate.Config.Pricing.{lookup_model}
use agentgate.External.{Float64}

-- The tokens of internal/shared/ir/types.go.
pub record Usage : Type 0 where
  pub input : ℤ
  pub output : ℤ
  pub cache_read : ℤ
  pub cache_create : ℤ

-- The results of Calculate, in their order.
pub record Costs : Type 0 where
  pub total_cents : ℤ
  pub input_cost_cents : ℤ
  pub output_cost_cents : ℤ
  pub cache_read_cost_cents : ℤ
  pub cache_create_cost_cents : ℤ
  pub currency : String
  pub source : String

pub record Event : Type 0 where
  pub wire : String
  pub vendor_id : String
  pub endpoint_id : String
  pub model : String
  pub pool : String
  pub is_private : Bool
  pub input_tokens : ℤ
  pub output_tokens : ℤ
  pub cache_read_tokens : ℤ
  pub cache_create_tokens : ℤ
  pub cost_cents : ℤ
  pub input_cost_cents : ℤ
  pub output_cost_cents : ℤ
  pub cache_read_cost_cents : ℤ
  pub cache_create_cost_cents : ℤ
  pub currency : String
  pub cost_source : String

abbrev pub no_usage : Usage
no_usage = record { input = pos 0; output = pos 0; cache_read = pos 0; cache_create = pos 0 }

-- `if usage == nil`
abbrev pub or_no_usage : Option Usage → Usage
or_no_usage none = no_usage
or_no_usage (some u) = u

module _ (float : Float64) where
  open float use {F, of_int, to_int, plus, times, divide}

  unfoldable pub lookup_price : Option (PricingConfig F) → String → String → Option (ModelPricing F)
  lookup_price none vendor model = none
  lookup_price (some pricing) vendor model = lookup_model pricing.models vendor model

  abbrev pub price_or : Option F → F → F
  price_or none input_price = input_price
  price_or (some price) input_price = price

  unfoldable pub effective_cache_read_price : ModelPricing F → F
  effective_cache_read_price m = price_or m.cache_read_price m.input_price

  unfoldable pub effective_cache_create_price : ModelPricing F → F
  effective_cache_create_price m = price_or m.cache_create_price m.input_price

  -- `float64(tokens) * price / 1000`
  abbrev pub bucket : ℤ → F → F
  bucket tokens price = divide (times (of_int tokens) price) (of_int (pos 1000))

  -- Whether tokens of a bucket have no price of their own.
  abbrev pub unpriced : ℤ → Option F → Bool
  unpriced tokens price = ltb_ℤ (pos 0) tokens && is_none price

  -- The body of Calculate at the row that was found.
  unfoldable pub price_usage : ModelPricing F → Usage → Costs
  unfolding effective_cache_read_price effective_cache_create_price
  price_usage price u =
      let input_cost = bucket u.input price.input_price in
      let output_cost = bucket u.output price.output_price in
      let cache_read_cost = bucket u.cache_read (effective_cache_read_price price) in
      let cache_create_cost = bucket u.cache_create (effective_cache_create_price price) in
      record {
        total_cents =
            to_int (plus (plus (plus input_cost output_cost) cache_read_cost) cache_create_cost);
        input_cost_cents = to_int input_cost;
        output_cost_cents = to_int output_cost;
        cache_read_cost_cents = to_int cache_read_cost;
        cache_create_cost_cents = to_int cache_create_cost;
        currency = if price.currency == "" then "USD" else price.currency;
        source =
            if unpriced u.cache_read price.cache_read_price
              || unpriced u.cache_create price.cache_create_price
            then "estimated"
            else "provider_usage";
      }

  abbrev pub no_price : Costs
  no_price = record {
    total_cents = pos 0;
    input_cost_cents = pos 0;
    output_cost_cents = pos 0;
    cache_read_cost_cents = pos 0;
    cache_create_cost_cents = pos 0;
    currency = "USD";
    source = "estimated";
  }

  unfoldable pub calculate : Option (PricingConfig F) → String → String → Usage → Costs
  calculate pricing vendor model u = elim (lookup_price pricing vendor model) [
    | none ↦ no_price
    | some price ↦ price_usage price u
  ]

  -- A nil usage is `none`.
  unfoldable pub build_event :
      Option Usage
      → String
      → String
      → String
      → String
      → String
      → Bool
      → Option (PricingConfig F)
      → Event
  build_event usage wire vendor_id endpoint_id model pool is_private pricing =
      let u = or_no_usage usage in
      let c = calculate pricing vendor_id model u in
      record {
        wire = wire;
        vendor_id = vendor_id;
        endpoint_id = endpoint_id;
        model = model;
        pool = pool;
        is_private = is_private;
        input_tokens = u.input;
        output_tokens = u.output;
        cache_read_tokens = u.cache_read;
        cache_create_tokens = u.cache_create;
        cost_cents = c.total_cents;
        input_cost_cents = c.input_cost_cents;
        output_cost_cents = c.output_cost_cents;
        cache_read_cost_cents = c.cache_read_cost_cents;
        cache_create_cost_cents = c.cache_create_cost_cents;
        currency = c.currency;
        cost_source = c.source;
      }
