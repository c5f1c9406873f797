-- ===== src/Crm.antt =====
-- The CRM side: the stores of idempotency records and the AmoCRM gateway,
-- infrastructure/adapters/crm/.
pub mod Record
pub mod FileStore
pub mod RedisStore
pub mod Gateway
