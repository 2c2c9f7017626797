-- ===== src/Transformer.antt =====
-- The gateway's internal form of a request, and its conversions from and to what providers speak:
-- internal/shared/ir and internal/shared/transformer.
pub mod Ir
pub mod Anthropic
pub mod ToIr
pub mod FromIr
pub mod Kept
pub mod RoundTrip
pub mod Degraded
pub mod Stripped
pub mod Uncached
pub mod OpenAi
pub mod OpenAiBody
pub mod OpenAiSent
