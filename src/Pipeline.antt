-- ===== src/Pipeline.antt =====
-- The request pipelines of internal/gw/server.
pub mod Egress
pub mod EgressRun
pub mod Calls
pub mod Sent
pub mod Ingress
pub mod Required
pub mod IngressRun
pub mod Routed
pub mod Served
pub mod Checked
pub mod Promised
