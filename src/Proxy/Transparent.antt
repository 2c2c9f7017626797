-- ===== src/Proxy/Transparent.antt =====
-- Between internal/gw/server/egress_pipeline.go, which appends an aicg.usage frame to a provider's stream,
-- and internal/lp/server/anthropic.go, which takes it out: the client sees the provider's frames.
