-- ===== src/Budget.antt =====
-- The budget lifecycle, Reserve, Commit and Release: internal/gw/budget.
pub mod Reservation
pub mod Service
pub mod Accounting
pub mod Expiry
pub mod Postgres
pub mod Settler
pub mod Table
pub mod Agreement
pub mod Refined
pub mod Settling
pub mod Audited
