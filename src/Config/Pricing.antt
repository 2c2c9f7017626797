-- ===== src/Config/Pricing.antt =====
-- The pricing table: internal/gw/config/pricing.go. Reading the file and parsing YAML are left to the
-- caller.
pub mod Valid
use Prim.Native.String.{◌++◌ as str_append, len}
use agentgate.Base.{
  ℕ, ◌+◌, String, Bool, true, false, not, ◌&&◌, ◌||◌, List, [], ◌∷◌, Option, none, some, ◌==◌,
  nat_eq, if◌then◌else◌, Dict, lookup, insert, contains, map, Result, ok, err, ◌>>=◌, ◌>>◌, reject,
}
use agentgate.Config.Types.{
  ModelPricing, PricingConfig, ProviderEndpoint, PoolMember, Pool, PoolsConfig,
}
use agentgate.Config.Pools.{is_empty, is_none}
use agentgate.External.{Float64}

-- The method Lookup, and lookupPrice of internal/gw/cost/cost.go: the first row that fits.
unfoldable pub lookup_model :
    {F : Type 0} → List (ModelPricing F) → String → String → Option (ModelPricing F)
lookup_model [] vendor model = none
lookup_model (m ∷ models) vendor model =
    if (m.vendor == vendor) && (m.model == model) then some m else lookup_model models vendor model

-- The index of a row, its vendor and its model; for a duplicate, the index of the first.
pub data PricingError : Type 0 where
  no_models : PricingError
  vendor_required model_required : ℕ → PricingError
  price_negative currency_not_iso cache_read_price_required cache_create_price_required
        cache_read_price_negative cache_create_price_negative :
      ℕ → String → String → PricingError
  duplicate : ℕ → String → String → ℕ → PricingError

-- `vendor + ":" + model`
abbrev pub pair_key : String → String → String
pair_key vendor model = str_append vendor (str_append ":" model)

module _ (float : Float64) where
  open float use {F, negative}

  abbrev negative_price : Option F → Bool
  negative_price none = false
  negative_price (some price) = negative price

  unfoldable pub check_model : ℕ → ModelPricing F → Result PricingError (Unit {0})
  check_model i m = do
    reject (m.vendor == "") (vendor_required i)
    reject (m.model == "") (model_required i)
    reject (negative m.input_price || negative m.output_price) (price_negative i m.vendor m.model)
    reject (not (m.currency == "") && not (nat_eq (len m.currency) 3))
        (currency_not_iso i m.vendor m.model)
    reject (m.capabilities.cache_control && is_none m.cache_read_price)
        (cache_read_price_required i m.vendor m.model)
    reject (m.capabilities.cache_control && is_none m.cache_create_price)
        (cache_create_price_required i m.vendor m.model)
    reject (negative_price m.cache_read_price) (cache_read_price_negative i m.vendor m.model)
    reject (negative_price m.cache_create_price) (cache_create_price_negative i m.vendor m.model)

  -- The check of `seen` for the row, with what follows it.
  unfoldable pub check_first :
      ℕ
      → ModelPricing F
      → Option ℕ
      → Result PricingError (Unit {0})
      → Result PricingError (Unit {0})
  check_first i m none rest = rest
  check_first i m (some first) rest = err (duplicate i m.vendor m.model first)

  -- The loop over the rows, from row `i` on.
  unfoldable pub check_models : ℕ → Dict ℕ → List (ModelPricing F) → Result PricingError (Unit {0})
  check_models i seen [] = ok tt
  check_models i seen (m ∷ models) = do
    check_model i m
    check_first i m (lookup (pair_key m.vendor m.model) seen)
        (check_models (i + 1) (insert (pair_key m.vendor m.model) i seen) models)

  unfoldable pub validate_pricing : PricingConfig F → Result PricingError (Unit {0})
  validate_pricing c = do reject (is_empty c.models) no_models; check_models 0 [] c.models

abbrev pub default_currency : {F : Type 0} → ModelPricing F → ModelPricing F
default_currency m = if m.currency == "" then record m { currency = "USD" } else m

unfoldable pub default_currencies : {F : Type 0} → PricingConfig F → PricingConfig F
default_currencies c = record { models = map default_currency c.models }
