-- ===== src/Tests/Cost.antt =====
-- A pricing table of two models, with whole numbers for floats: internal/gw/config/pricing.go and
-- internal/gw/cost/cost.go.
use agentgate.Base.{
  ℕ, ◌+◌, ◌*◌, ◌/◌, ◌≡◌, refl, String, Bool, true, false, List, [], ◌∷◌, ◌++◌, Option, none, some,
  pos, pos_part, ok,
}
use agentgate.Config.Types.{ModelPricing, PricingConfig}
use agentgate.Config.Pricing.{
  lookup_model, check_model, check_first, check_models, validate_pricing,
}
use agentgate.Config.Pricing.Valid.{HasCachePrices, validate_pricing-lookup_model}
use agentgate.Cost.{Usage, calculate}
use agentgate.Cost.Source.{calculate-validate_pricing}
use agentgate.External.{Float64}

abbrev pub whole : Float64
whole = record {
  F = ℕ;
  of_int = pos_part;
  to_int = pos;
  plus = λ a b. a + b;
  times = λ a b. a * b;
  divide = λ a b. a / b;
  negative = λ _. false;
}

abbrev row : String → Bool → Option ℕ → ModelPricing ℕ
row model caches cache_price = record {
  vendor = "acme";
  model = model;
  currency = "";
  input_price = 300;
  output_price = 1500;
  cache_read_price = cache_price;
  cache_create_price = cache_price;
  capabilities = record {
    tools = true;
    cache_control = caches;
    extended_thinking = false;
    vision = false;
  };
}

abbrev pub table : PricingConfig ℕ
table = record { models = row "small" false none ∷ row "large" true (some 30) ∷ [] }

abbrev some_tokens : Usage
some_tokens = record {
  input = pos 2000;
  output = pos 500;
  cache_read = pos 100;
  cache_create = pos 0;
}

table_valid : validate_pricing whole table ≡ ok tt
unfolding validate_pricing check_models check_first check_model
table_valid = refl

validate_pricing-lookup_model_example :
    ((before after : List (ModelPricing ℕ)) (m : ModelPricing ℕ)
      → table.models ≡ before ++ m ∷ after
      → lookup_model table.models m.vendor m.model ≡ some m)
    × ((vendor model : String) (found : ModelPricing ℕ)
        → lookup_model table.models vendor model ≡ some found
        → HasCachePrices found)
validate_pricing-lookup_model_example = validate_pricing-lookup_model whole table table_valid

large_found : lookup_model table.models "acme" "large" ≡ some (row "large" true (some 30))
unfolding lookup_model
large_found = refl

calculate-validate_pricing_example :
    (calculate whole (some table) "acme" "large" some_tokens).source ≡ "provider_usage"
calculate-validate_pricing_example =
    calculate-validate_pricing whole table "acme" "large" some_tokens (row "large" true (some 30))
      table_valid large_found refl
