-- ===== src/Routing.antt =====
-- Model pool routing: internal/gw/routing.
pub mod Seed
pub mod Expand
pub mod Shuffle
pub mod Mixing
pub mod Constraints
pub mod Selector
pub mod Chain
pub mod Build
pub mod Serve
pub mod Replayed
