-- ===== src/Config/Pools/Valid.antt =====
-- What a pools.yaml that passes internal/gw/config/pools.go guarantees.
use agentgate.Base.{
  ℕ, ◌+◌, ◌≡◌, subst, String, List, [], ◌∷◌, some, ℤ, pos, ◌<ℤ◌, leb_ℤ, Dict, lookup, false, ok,
  >>=-eq-ok, reject-eq-ok, All, ◌==◌, Bool-cases, inl, inr, some-injective, arith,
}
use agentgate.Config.Types.{ProviderEndpoint, PoolMember, Pool, PoolsConfig}
use agentgate.Config.Pools.{is_empty, is_none, check_members, check_pools, validate_pools}

-- A member is registered and has a positive weight.
abbrev pub IsUsable : Dict ProviderEndpoint → PoolMember → Type 0
IsUsable registry m = (is_none (lookup m.endpoint_id registry) ≡ false) × (pos 0 <ℤ m.weight)

-- A pool has members, all usable, and positive limits.
pub record IsValidPool (registry : Dict ProviderEndpoint) (pool : Pool) : Type 0 where
  pub has_members : is_empty pool.members ≡ false
  pub usable : All (IsUsable registry) pool.members
  pub timeout_positive : pos 0 <ℤ pool.timeout_ms
  pub attempts_positive : pos 0 <ℤ pool.max_attempts

positive : (n : ℤ) → leb_ℤ n (pos 0) ≡ false → pos 0 <ℤ n
positive n h = ground arith

check_members-IsUsable :
    (registry : Dict ProviderEndpoint) (name : String) (i : ℕ) (members : List PoolMember)
    → check_members registry name i members ≡ ok tt
    → All (IsUsable registry) members
unfolding check_members
check_members-IsUsable registry name i [] h = tt
check_members-IsUsable registry name i (m ∷ members) h =
    let (known, k) = reject-eq-ok _ _ _ h in
    let (weight, rest) = reject-eq-ok _ _ _ k in
    ((known, positive m.weight weight), check_members-IsUsable registry name (i + 1) members rest)

check_pools-IsValidPool :
    (registry : Dict ProviderEndpoint) (pools : Dict Pool)
    → check_pools registry pools ≡ ok tt
    → All (λ e. IsValidPool registry e.1) pools
unfolding check_pools
check_pools-IsValidPool registry [] h = tt
check_pools-IsValidPool registry ((name, pool) ∷ pools) h =
    let (members, h₁) = reject-eq-ok _ _ _ h in
    let (done, checked, h₂) = >>=-eq-ok (check_members registry name 0 pool.members) _ h₁ in
    let (timeout, h₃) = reject-eq-ok _ _ _ h₂ in
    let (attempts, h₄) = reject-eq-ok _ _ _ h₃ in
    (
      record {
        has_members = members;
        usable = check_members-IsUsable registry name 0 pool.members checked;
        timeout_positive = positive pool.timeout_ms timeout;
        attempts_positive = positive pool.max_attempts attempts;
      },
      check_pools-IsValidPool registry pools h₄,
    )

-- An entry that a lookup finds is one of the map's.
pub lookup-All :
    {V : Type 0} (P : V → Type 0) (k : String) (m : Dict V) {v : V}
    → All (λ e. P e.1) m
    → lookup k m ≡ some v
    → P v
lookup-All P k [] all h = cc
lookup-All P k ((j, w) ∷ m) {v} all h = elim (Bool-cases (j == k)) [
  | inl e ↦ subst P (some-injective w v (rw e at h)) all.0
  | inr e ↦ lookup-All P k m all.1 (rw e at h)
]

-- Every pool of a configuration that passes the check has members, each of them registered and of
-- positive weight, and positive timeout and attempts.
pub validate_pools-IsValidPool :
    (c : PoolsConfig) (name : String) {pool : Pool}
    → validate_pools c ≡ ok tt
    → lookup name c.pools ≡ some pool
    → IsValidPool c.provider_endpoints pool
unfolding validate_pools
validate_pools-IsValidPool c name h found =
    let (_, checked) = reject-eq-ok _ _ _ h in
    lookup-All (IsValidPool c.provider_endpoints) name c.pools
      (check_pools-IsValidPool c.provider_endpoints c.pools checked) found
