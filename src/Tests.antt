-- ===== src/Tests.antt =====
-- Concrete runs of the theorems.
pub mod Doubles
pub mod Policy
pub mod Routing
pub mod Auth
pub mod Budget
pub mod Checks
pub mod Cost
pub mod Streaming
pub mod Classify
pub mod Identity
pub mod Transformer
pub mod Pipeline
pub mod Proxy
