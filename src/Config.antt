-- ===== src/Config.antt =====
-- The configuration that the gateway loads: internal/gw/config.
pub mod Types
pub mod Policy
pub mod Pricing
pub mod Pools
pub mod Identity
pub mod Loaded
