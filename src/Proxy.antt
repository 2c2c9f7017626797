-- ===== src/Proxy.antt =====
-- The local proxy's relay of a stream: internal/lp/server/anthropic.go.
pub mod Frames
pub mod Relay
pub mod Split
pub mod Reading
pub mod Delivery
pub mod Transparent
