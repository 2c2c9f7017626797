-- ===== src/Config/Loaded.antt =====
-- The configuration that Load of internal/gw/config/loader.go returns: Config and EndpointWithKey of
-- internal/gw/config/types.go.
use agentgate.Base.{String, Dict}
use agentgate.Config.Types.{
  ProviderEndpoint, PoolsConfig, PolicyConfig, PricingConfig, IdentityConfig,
}

pub record EndpointWithKey : Type 0 where
  pub endpoint : ProviderEndpoint
  pub resolved_key : String

pub record GatewayConfig (F : Type 0) : Type 0 where
  pub pools : PoolsConfig
  pub policy : PolicyConfig
  pub pricing : PricingConfig F
  pub identity : IdentityConfig
  pub resolved_endpoints : Dict EndpointWithKey
