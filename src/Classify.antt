-- ===== src/Classify.antt =====
-- The classification of a request: internal/gw/classifier/server_reclassifier.go on the server, and
-- internal/lp/tagger/v0.go on the client. Counts of lines are natural numbers.
pub mod Paths
pub mod Server
pub mod Client
pub mod Order
