-- ===== src/Config/Pricing/Valid.antt =====
-- What a pricing.yaml that passes internal/gw/config/pricing.go guarantees.
use agentgate.Base.{
  ℕ, ◌+◌, ◌≡◌, String, true, false, ◌&&◌, List, [], ◌∷◌, ◌++◌, Option, none, some, ◌==◌, eq_iff,
  eq_refl, Dict, lookup, insert, lookup-insert, ok, >>=-eq-ok, reject-eq-ok, All, Bool-cases,
  Option-cases, some-injective, subst, inl, inr, arith, if◌then◌else◌,
}
use agentgate.Config.Types.{ModelPricing, PricingConfig}
use agentgate.Config.Pools.{is_empty, is_none}
use agentgate.Config.Pricing.{
  no_models, pair_key, lookup_model, check_model, check_first, check_models, validate_pricing,
}
use agentgate.External.{Float64}

-- A model that caches has prices for it.
abbrev pub HasCachePrices : {F : Type 0} → ModelPricing F → Type 0
HasCachePrices m =
    m.capabilities.cache_control ≡ true
    → (is_none m.cache_read_price ≡ false) × (is_none m.cache_create_price ≡ false)

lookup_model-All :
    {F : Type 0} (P : ModelPricing F → Type 0) (models : List (ModelPricing F))
    (vendor model : String) {row : ModelPricing F}
    → All P models
    → lookup_model models vendor model ≡ some row
    → P row
unfolding lookup_model
lookup_model-All P [] vendor model all h = cc
lookup_model-All P (m ∷ models) vendor model {row} all h =
    elim (Bool-cases ((m.vendor == vendor) && (m.model == model))) [
      | inl e ↦ subst P (some-injective m row (rw e at h)) all.0
      | inr e ↦ lookup_model-All P models vendor model all.1 (rw e at h)
    ]

same_pair :
    (v w m n : String) → ((v == w) && (m == n)) ≡ true → (pair_key v m == pair_key w n) ≡ true
same_pair v w m n h =
    let vendors = (eq_iff v w).0 (ground arith) in
    let models = (eq_iff m n).0 (ground arith) in rw vendors (rw models (eq_refl (pair_key w n)))

-- A pair that is not seen after another is another pair, and was not seen before it.
fresh_pair :
    {F : Type 0} (x m : ModelPricing F) (i : ℕ) (seen : Dict ℕ)
    → ◌≡◌ {A = Option ℕ}
        (if pair_key x.vendor x.model == pair_key m.vendor m.model
          then some i
          else lookup (pair_key m.vendor m.model) seen)
        none
    → (lookup (pair_key m.vendor m.model) seen ≡ none)
      × (((x.vendor == m.vendor) && (x.model == m.model)) ≡ false)
fresh_pair x m i seen h =
    elim (Bool-cases (pair_key x.vendor x.model == pair_key m.vendor m.model)) [
      | inl e ↦ cc (rw e at h)
      | inr e ↦ elim (Bool-cases ((x.vendor == m.vendor) && (x.model == m.model))) [
        | inl f ↦ cc (same_pair x.vendor m.vendor x.model m.model f, e)
        | inr f ↦ (rw e at h, f)
      ]
    ]

module _ (float : Float64) where
  open float use {F}

  check_model-HasCachePrices :
      (i : ℕ) (m : ModelPricing F) → check_model float i m ≡ ok tt → HasCachePrices m
  unfolding check_model
  check_model-HasCachePrices i m h caches = ground arith

  -- A row that is looked up is not the second of its vendor and model.
  lookup_model-first :
      (i : ℕ) (before after : List (ModelPricing F)) (m : ModelPricing F) (seen : Dict ℕ)
      → check_models float i seen (before ++ m ∷ after) ≡ ok tt
      → (lookup (pair_key m.vendor m.model) seen ≡ none)
        × (lookup_model (before ++ m ∷ after) m.vendor m.model ≡ some m)
  unfolding check_models check_first lookup_model
  lookup_model-first i [] after m seen h =
      let (_, checked, k) = >>=-eq-ok (check_model float i m) _ h in
      (
        elim (Option-cases (lookup (pair_key m.vendor m.model) seen)) [
          | inl e ↦ e
          | inr (first, e) ↦ cc (rw e at k)
        ],
        rw (eq_refl m.vendor) (rw (eq_refl m.model)),
      )
  lookup_model-first i (x ∷ before) after m seen h =
      let (_, checked, k) = >>=-eq-ok (check_model float i x) _ h in
      elim (Option-cases (lookup (pair_key x.vendor x.model) seen)) [
        | inl e ↦
            let (fresh, found) =
              lookup_model-first (i + 1) before after m (insert (pair_key x.vendor x.model) i seen)
                (rw e at k) in
            let apart =
              rw (lookup-insert (pair_key x.vendor x.model) (pair_key m.vendor m.model) i seen) at
                fresh in
            let (before_it, distinct) = fresh_pair x m i seen apart in
            (before_it, rw distinct found)
        | inr (first, e) ↦ cc (rw e at k)
      ]

  check_models-HasCachePrices :
      (i : ℕ) (models : List (ModelPricing F)) (seen : Dict ℕ)
      → check_models float i seen models ≡ ok tt
      → All HasCachePrices models
  unfolding check_models check_first
  check_models-HasCachePrices i [] seen h = tt
  check_models-HasCachePrices i (m ∷ models) seen h =
      let (_, checked, k) = >>=-eq-ok (check_model float i m) _ h in
      elim (Option-cases (lookup (pair_key m.vendor m.model) seen)) [
        | inl e ↦ (
          check_model-HasCachePrices i m checked,
          check_models-HasCachePrices (i + 1) models (insert (pair_key m.vendor m.model) i seen)
              (rw e at k),
        )
        | inr (first, e) ↦ cc (rw e at k)
      ]

  -- In a pricing table that passes its check, each row is the one that its vendor and model look up,
  -- and a row that is looked up has cache prices if its model caches.
  pub validate_pricing-lookup_model :
      (c : PricingConfig F)
      → validate_pricing float c ≡ ok tt
      → ((before after : List (ModelPricing F)) (m : ModelPricing F)
          → c.models ≡ before ++ m ∷ after
          → lookup_model c.models m.vendor m.model ≡ some m)
        × ((vendor model : String) (row : ModelPricing F)
            → lookup_model c.models vendor model ≡ some row
            → HasCachePrices row)
  unfolding validate_pricing
  validate_pricing-lookup_model c h =
      let (_, checked) = reject-eq-ok (is_empty c.models) no_models _ h in
      (
        λ before after m e. rw e (lookup_model-first 0 before after m [] (rw e at checked)).1,
        λ vendor model row found.
            lookup_model-All HasCachePrices c.models vendor model
              (check_models-HasCachePrices 0 c.models [] checked) found,
      )
