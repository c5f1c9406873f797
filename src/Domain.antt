-- ===== src/Domain.antt =====
-- The domain layer, domain/.
pub mod Entities
pub mod Selection
pub mod TaskFactory
pub mod IdempotencyPolicy
pub mod Prerequisites
