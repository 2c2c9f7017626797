-- ===== src/Provider.antt =====
-- The providers' adapters: internal/gw/provider.
pub mod Request
pub mod Delivered
pub mod OpenAi
