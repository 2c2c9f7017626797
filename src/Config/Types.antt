-- ===== src/Config/Types.antt =====
-- The configuration records of internal/gw/config/types.go. A Go map is its entries in the order of
-- iteration, a pointer is an Option, and `float64` is the parameter `F`. The maps of YAML variables
-- that no code reads are left out.
use agentgate.Base.{String, Bool, Option, List, ℤ, Dict}

pub record EndpointSupports : Type 0 where
  pub streaming : Bool

pub record ProviderEndpoint : Type 0 where
  pub wire : String
  pub vendor : String
  pub url : String
  pub data_residency : String
  pub trust_tier : String
  pub deployments : List String
  pub supports : EndpointSupports
  pub key_ref : String

pub record ModelCapabilities : Type 0 where
  pub tools : Bool
  pub cache_control : Bool
  pub extended_thinking : Bool
  pub vision : Bool

pub record PoolMember : Type 0 where
  pub endpoint_id : String
  pub model : String
  pub weight : ℤ

pub record Pool : Type 0 where
  pub members : List PoolMember
  pub fallback_pool : String
  pub max_attempts : ℤ
  pub timeout_ms : ℤ

pub record PoolsConfig : Type 0 where
  pub provider_endpoints : Dict ProviderEndpoint
  pub pools : Dict Pool

pub record DegradationConfig : Type 0 where
  pub allowed_capabilities : List String

pub record ActionSpec : Type 0 where
  pub action : String
  pub model_pool : String
  pub reasons : List String

pub record Defaults : Type 0 where
  pub on_no_match : ActionSpec

pub record PolicyRule : Type 0 where
  pub id : String
  pub description : String
  pub priority : ℤ
  pub when : String
  pub action : String
  pub model_pool : String
  pub reasons : List String

pub record PolicyConfig : Type 0 where
  pub version : String
  pub defaults : Defaults
  pub degradation : DegradationConfig
  pub rules : List PolicyRule

pub record ModelPricing (F : Type 0) : Type 0 where
  pub vendor : String
  pub model : String
  pub currency : String
  pub input_price : F
  pub output_price : F
  pub cache_read_price : Option F
  pub cache_create_price : Option F
  pub capabilities : ModelCapabilities

pub record PricingConfig (F : Type 0) : Type 0 where
  pub models : List (ModelPricing F)

pub record UserIdentity : Type 0 where
  pub user_id : String
  pub team_id : String
  pub role : String
  pub api_key_hash : String

pub record TeamIdentity : Type 0 where
  pub team_id : String
  pub name : String
  pub budget_monthly_cap_cents : ℤ

pub record RepoIdentity : Type 0 where
  pub repo_id : String
  pub remote_url : String
  pub default_team_id : String
  pub restricted : Bool

pub record IdentityConfig : Type 0 where
  pub users : List UserIdentity
  pub teams : List TeamIdentity
  pub repos : List RepoIdentity
