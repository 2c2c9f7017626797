-- ===== src/Tests/Routing.antt =====
-- A pool of three members over two endpoints, one of them outside the decision's residency:
-- internal/gw/routing.
use mathlib.Core.List.{Perm}
use agentgate.Base.{
  ℕ, ◌%◌, ◌<◌, ◌≡◌, ◌≢◌, refl, ◌⊎◌, String, true, false, List, [], ◌∷◌, Option, none, some, pos,
  All, contains, length, get_elem?, ok, err, arith,
}
use agentgate.Config.Types.{ProviderEndpoint, PoolMember, Pool, PoolsConfig}
use agentgate.Config.Pools.{validate_pools, check_pools, check_members}
use agentgate.Policy.Decision.{Decision, route_decision}
use agentgate.Routing.Seed.{chacha8_seed, expand, seed_bytes}
use agentgate.Routing.Expand.{chacha8_seed-repeats}
use agentgate.Routing.Shuffle.{shuffle, shuffle_from, rng_int_n, swap}
use agentgate.Routing.Mixing.{shuffle-perm}
use agentgate.Routing.Constraints.{
  Member, satisfies_constraints, tier_allowed, residency_allowed, supports_all,
}
use agentgate.Routing.Selector.{
  RoutingError, Selector, candidates, eligible, member_of, no_candidate_error, build_chain,
  new_selector, replay, chain_or_error, chain_from_seed, weighted, dedup,
}
use agentgate.Routing.Chain.{ids, Distinct, any_weighted}
use agentgate.Routing.Build.{IsRefusal, IsServable, build_chain_lem}
use agentgate.Routing.Serve.{build_chain-serves}
use agentgate.Routing.Replayed.{event_row, replay-build_chain, replay-ne-build_chain}
use agentgate.Tests.Doubles.{test_random, test_sha}

chacha8_seed-repeats_example :
    (out : List ℕ) × (chacha8_seed (7 ∷ 8 ∷ 9 ∷ []) ≡ some out)
    × (length out ≡ 32)
    × ((k : ℕ) → k < 32 → get_elem? out k ≡ get_elem? (7 ∷ 8 ∷ 9 ∷ []) (k % 3))
chacha8_seed-repeats_example = chacha8_seed-repeats (7 ∷ 8 ∷ 9 ∷ []) (omega arith) (omega arith)

shuffle-perm_example :
    (ys : List String) × (shuffle test_random (5 ∷ 0 ∷ []) ("a" ∷ "b" ∷ "c" ∷ []) ≡ some ys)
    × Perm ys ("a" ∷ "b" ∷ "c" ∷ [])
shuffle-perm_example = shuffle-perm test_random (5 ∷ 0 ∷ []) ("a" ∷ "b" ∷ "c" ∷ [])

abbrev pub endpoint : String → String → ProviderEndpoint
endpoint vendor residency = record {
  wire = "anthropic";
  vendor = vendor;
  url = "https://api.example.com";
  data_residency = residency;
  trust_tier = "vendor";
  deployments = [];
  supports = record { streaming = true };
  key_ref = "";
}

abbrev pub pool_member : String → ℕ → PoolMember
pool_member id weight = record { endpoint_id = id; model = "m"; weight = pos weight }

abbrev pub standard : Pool
standard = record {
  members = pool_member "eu" 2 ∷ pool_member "us" 1 ∷ pool_member "eu" 2 ∷ [];
  fallback_pool = "";
  max_attempts = pos 3;
  timeout_ms = pos 30000;
}

abbrev pub pools : PoolsConfig
pools = record {
  provider_endpoints = ("eu", endpoint "acme" "eu") ∷ ("us", endpoint "other" "us") ∷ [];
  pools = ("standard", standard) ∷ [];
}

abbrev selector : Selector ℕ
selector = record { registry = pools.provider_endpoints; pools = pools.pools; pricing = none }

abbrev in_eu : Option Decision
in_eu = some (record (route_decision "standard" []) { required_data_residency = "eu" ∷ [] })

pools_valid : validate_pools pools ≡ ok tt
unfolding validate_pools check_pools check_members
pools_valid = refl

build_chain_lem_example :
    ((eligible selector standard in_eu ≡ [])
      × ((e : RoutingError) × (build_chain test_random test_sha selector "standard" in_eu "t1"
              (pos 1)
            ≡ err e)
          × IsRefusal "standard" in_eu e))
    ⊎ ((chain : List Member) × (eligible selector standard in_eu ≢ [])
        × (build_chain test_random test_sha selector "standard" in_eu "t1" (pos 1) ≡ ok chain)
        × Distinct (ids chain)
        × ((x : String)
            → contains (ids chain) x ≡ any_weighted (eligible selector standard in_eu) x)
        × All (IsServable test_random test_sha selector standard in_eu) chain)
build_chain_lem_example =
    build_chain_lem test_random test_sha selector "standard" in_eu "t1" (pos 1) refl

build_chain-serves_example :
    ((m : Member) × (ms : List Member) × (build_chain test_random test_sha
          (new_selector {F = ℕ} pools none)
          "standard"
          in_eu
          "t1"
          (pos 1)
        ≡ ok (m ∷ ms))
      × IsServable {F = ℕ} test_random test_sha (new_selector pools none) standard in_eu m)
    ⊎ ((build_chain test_random test_sha
            (new_selector {F = ℕ} pools none)
            "standard"
            in_eu
            "t1"
            (pos 1)
          ≡ err (no_candidate_error "standard" in_eu))
        × (eligible {F = ℕ} (new_selector pools none) standard in_eu ≡ []))
build_chain-serves_example =
    build_chain-serves test_random test_sha pools none "standard" in_eu "t1" (pos 1) pools_valid
      refl

abbrev eu_member : Member
eu_member = member_of (pool_member "eu" 2) (endpoint "acme" "eu")

abbrev us_member : Member
us_member = member_of (pool_member "us" 1) (endpoint "other" "us")

chain_in_eu :
    build_chain test_random test_sha selector "standard" in_eu "t1" (pos 1) ≡ ok (eu_member ∷ [])
unfolding build_chain eligible candidates member_of satisfies_constraints tier_allowed
    residency_allowed supports_all chain_or_error seed_bytes chain_from_seed chacha8_seed expand
    shuffle shuffle_from rng_int_n swap weighted dedup route_decision
chain_in_eu = refl

abbrev anywhere : Option Decision
anywhere = some (route_decision "standard" [])

chain_anywhere :
    build_chain test_random test_sha selector "standard" anywhere "t1" (pos 1)
    ≡ ok (eu_member ∷ us_member ∷ [])
unfolding build_chain eligible candidates member_of satisfies_constraints tier_allowed
    residency_allowed supports_all chain_or_error seed_bytes chain_from_seed chacha8_seed expand
    shuffle shuffle_from rng_int_n swap weighted dedup route_decision
chain_anywhere = refl

replayed_chain :
    replay test_random
      (event_row test_random test_sha selector "standard" "t1" (pos 1))
      selector.registry
      selector.pools
    ≡ ok (eu_member ∷ us_member ∷ [])
unfolding replay candidates member_of chain_or_error seed_bytes chain_from_seed chacha8_seed expand
    shuffle shuffle_from rng_int_n swap weighted dedup
replayed_chain = refl

anywhere_admitted :
    All
      (λ c. satisfies_constraints c anywhere selector.pricing ≡ true)
      (candidates selector.registry standard.members)
unfolding satisfies_constraints tier_allowed residency_allowed supports_all candidates member_of
    route_decision
anywhere_admitted = (refl, (refl, (refl, tt)))

replay-build_chain_example :
    replay test_random
      (event_row test_random test_sha selector "standard" "t1" (pos 1))
      selector.registry
      selector.pools
    ≡ ok (eu_member ∷ us_member ∷ [])
replay-build_chain_example =
    replay-build_chain test_random test_sha selector "standard" anywhere "t1" (pos 1) refl
      anywhere_admitted chain_anywhere

us_in_pool : any_weighted (candidates selector.registry standard.members) "us" ≡ true
unfolding candidates member_of
us_in_pool = refl

us_not_eligible : any_weighted (eligible selector standard in_eu) "us" ≡ false
unfolding eligible candidates member_of satisfies_constraints tier_allowed residency_allowed
    supports_all route_decision
us_not_eligible = refl

replay-ne-build_chain_example : ◌≢◌ {A = List Member} (eu_member ∷ []) (eu_member ∷ us_member ∷ [])
replay-ne-build_chain_example =
    replay-ne-build_chain test_random test_sha selector "standard" in_eu "t1" (pos 1) "us" refl
      us_in_pool us_not_eligible chain_in_eu replayed_chain
