-- ===== src/Auth.antt =====
-- Who may call the gateway: internal/gw/auth.
pub mod Keys
pub mod Middleware
pub mod Backed
pub mod Fresh
pub mod Guarded
pub mod Invites
pub mod OneShot
pub mod SetupTokens
