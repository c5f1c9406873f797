-- ===== src/Proxy.antt =====
-- The proxy provider's quota, infrastructure/adapters/proxy/.
pub mod Quota
