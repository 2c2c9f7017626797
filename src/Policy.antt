-- ===== src/Policy.antt =====
-- The policy engine: internal/gw/policy.
pub mod Decision
pub mod Fresh
pub mod Merge
pub mod Engine
pub mod Hits
pub mod Decide
pub mod Admitted
pub mod Declared
pub mod Started
pub mod Capability
pub mod Blocks
pub mod Required
