-- ===== src/Streaming.antt =====
-- The accounted stream: internal/gw/server/stream_accounting.go.
pub mod Lines
pub mod Usage
pub mod Forward
pub mod Relay
pub mod Accounting
pub mod Settled
