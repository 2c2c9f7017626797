-- ===== src/Config/Pools.antt =====
-- The check of pools.yaml: PoolsConfig.Validate of internal/gw/config/pools.go. Reading the file and
-- parsing YAML are left to the caller.
pub mod Valid
use agentgate.Base.{
  ℕ, ◌+◌, String, List, [], ◌∷◌, Option, none, some, ℤ, pos, leb_ℤ, Dict, lookup, Bool, true, false,
  Result, ok, ◌>>=◌, ◌>>◌, reject,
}
use agentgate.Config.Types.{ProviderEndpoint, PoolMember, Pool, PoolsConfig}

pub data PoolsError : Type 0 where
  empty_registry : PoolsError
  empty_pool : String → PoolsError
  unknown_endpoint : String → ℕ → String → PoolsError
  weight_not_positive : String → ℕ → ℤ → PoolsError
  timeout_not_positive attempts_not_positive : String → PoolsError

abbrev pub is_empty {ℓ} : {A : Type ℓ} → List A → Bool
is_empty [] = true
is_empty (x ∷ xs) = false

abbrev pub is_none {ℓ} : {A : Type ℓ} → Option A → Bool
is_none none = true
is_none (some a) = false

-- The loop over the members of a pool, from member `i` on.
unfoldable pub check_members :
    Dict ProviderEndpoint → String → ℕ → List PoolMember → Result PoolsError (Unit {0})
check_members registry name i [] = ok tt
check_members registry name i (m ∷ members) = do
  reject (is_none (lookup m.endpoint_id registry)) (unknown_endpoint name i m.endpoint_id)
  reject (leb_ℤ m.weight (pos 0)) (weight_not_positive name i m.weight)
  check_members registry name (i + 1) members

unfoldable pub check_pools : Dict ProviderEndpoint → Dict Pool → Result PoolsError (Unit {0})
check_pools registry [] = ok tt
check_pools registry ((name, pool) ∷ pools) = do
  reject (is_empty pool.members) (empty_pool name)
  check_members registry name 0 pool.members
  reject (leb_ℤ pool.timeout_ms (pos 0)) (timeout_not_positive name)
  reject (leb_ℤ pool.max_attempts (pos 0)) (attempts_not_positive name)
  check_pools registry pools

unfoldable pub validate_pools : PoolsConfig → Result PoolsError (Unit {0})
validate_pools c = do
  reject (is_empty c.provider_endpoints) empty_registry
  check_pools c.provider_endpoints c.pools
