-- ===== src/Routing/Selector.antt =====
-- The candidate chain: BuildChain of internal/gw/routing/selector.go, and its rebuilding by Replay in
-- internal/gw/routing/execute.go. SetPools and SetPricing swap the fields of the selector in one step.
-- A Go panic is the error `panicked`.
use agentgate.Base.{
  ℕ, ℤ, pos_part, String, List, [], ◌∷◌, ◌++◌, Option, none, some, ◌==◌, Dict, lookup, contains,
  replicate, filter, if◌then◌else◌, Result, ok, err,
}
use agentgate.Config.Types.{ProviderEndpoint, PoolMember, Pool, PoolsConfig, PricingConfig}
use agentgate.External.{Random, Sha256}
use agentgate.Policy.Decision.{Decision}
use agentgate.Routing.Seed.{seed_bytes, chacha8_seed}
use agentgate.Routing.Shuffle.{shuffle}
use agentgate.Routing.Constraints.{Member, satisfies_constraints}

pub data RoutingError : Type 0 where
  pool_not_found : String → RoutingError
  -- ErrNoCandidate: the pool, and the tier, residencies and capabilities of the summary.
  no_candidate : String → String → List String → List String → RoutingError
  no_members : String → RoutingError
  panicked : RoutingError

pub record Selector (F : Type 0) : Type 0 where
  pub registry : Dict ProviderEndpoint
  pub pools : Dict Pool
  pub pricing : Option (PricingConfig F)

unfoldable pub member_of : PoolMember → ProviderEndpoint → Member
member_of m ep = record {
  endpoint_id = m.endpoint_id;
  wire = ep.wire;
  vendor_id = ep.vendor;
  model = m.model;
  url = ep.url;
  trust_tier = ep.trust_tier;
  data_residency = ep.data_residency;
  streaming = ep.supports.streaming;
  private = ep.trust_tier == "private";
  original_weight = m.weight;
}

-- The first loop: unregistered endpoints are skipped.
unfoldable pub candidates : Dict ProviderEndpoint → List PoolMember → List Member
candidates registry [] = []
candidates registry (m ∷ members) =
    let rest = candidates registry members in
    elim (lookup m.endpoint_id registry) [ none ↦ rest | some ep ↦ member_of m ep ∷ rest ]

-- Each candidate as often as its weight says; a weight that is not positive adds none.
unfoldable pub weighted : List Member → List Member
weighted [] = []
weighted (c ∷ cs) = replicate (pos_part c.original_weight) c ++ weighted cs

-- The first occurrence of each endpoint.
unfoldable pub dedup : List String → List Member → List Member
dedup seen [] = []
dedup seen (m ∷ ms) =
    let skipped = dedup seen ms in
    let kept = m ∷ dedup (m.endpoint_id ∷ seen) ms in
    if contains seen m.endpoint_id then skipped else kept

abbrev pub dedup_shuffled : Option (List Member) → Result RoutingError (List Member)
dedup_shuffled none = err panicked
dedup_shuffled (some ms) = ok (dedup [] ms)

-- constraintSummary reads the fields of the decision, which a nil pointer does not have.
unfoldable pub no_candidate_error : String → Option Decision → RoutingError
no_candidate_error pool_name none = panicked
no_candidate_error pool_name (some dec) =
    no_candidate pool_name dec.required_trust_tier dec.required_data_residency
      dec.required_capabilities

-- The candidates of the pool that satisfy the constraints.
unfoldable pub eligible : {F : Type 0} → Selector F → Pool → Option Decision → List Member
eligible s pool dec =
    filter (λ c. satisfies_constraints c dec s.pricing) (candidates s.registry pool.members)

-- The fields of a row that Replay reads.
pub record RoutingEventRow : Type 0 where
  pub trace_id : String
  pub attempt_no : ℤ
  pub pool_selected : String
  pub seed : List ℕ

module _ (random : Random) where
  open random use {new_chacha8}

  -- From the stored seed on, as BuildChain and Replay both go.
  unfoldable pub chain_from_seed : List ℕ → List Member → Result RoutingError (List Member)
  chain_from_seed stored cs = elim (chacha8_seed stored) [
    | none ↦ err panicked
    | some seed ↦ dedup_shuffled (shuffle random (new_chacha8 seed) (weighted cs))
  ]

  unfoldable pub chain_or_error :
      RoutingError → List ℕ → List Member → Result RoutingError (List Member)
  chain_or_error e stored [] = err e
  chain_or_error e stored (c ∷ cs) = chain_from_seed stored (c ∷ cs)

  module _ {F : Type 0} (sha : Sha256) where
    unfoldable pub build_chain :
        Selector F → String → Option Decision → String → ℤ → Result RoutingError (List Member)
    build_chain s pool_name dec trace_id attempt_no = elim (lookup pool_name s.pools) [
      | none ↦ err (pool_not_found pool_name)
      | some pool ↦
          chain_or_error (no_candidate_error pool_name dec)
            (seed_bytes sha trace_id pool_name attempt_no) (eligible s pool dec)
    ]

  unfoldable pub replay :
      RoutingEventRow → Dict ProviderEndpoint → Dict Pool → Result RoutingError (List Member)
  replay row registry pools = elim (lookup row.pool_selected pools) [
    | none ↦ err (pool_not_found row.pool_selected)
    | some pool ↦
        chain_or_error (no_members row.pool_selected) row.seed (candidates registry pool.members)
  ]

-- SetPools and SetPricing.
unfoldable pub set_pools : {F : Type 0} → Selector F → PoolsConfig → Selector F
set_pools s cfg = record s { registry = cfg.provider_endpoints; pools = cfg.pools }

unfoldable pub set_pricing : {F : Type 0} → Selector F → Option (PricingConfig F) → Selector F
set_pricing s pricing = record s { pricing = pricing }

unfoldable pub new_selector : {F : Type 0} → PoolsConfig → Option (PricingConfig F) → Selector F
new_selector cfg pricing = record {
  registry = cfg.provider_endpoints;
  pools = cfg.pools;
  pricing = pricing;
}
