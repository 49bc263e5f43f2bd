-- ===== src/Models.antt =====
-- The domain types and rules of internal/models.
pub mod Plan
pub mod Role
pub mod Region
pub mod Monitor
pub mod Expiry
