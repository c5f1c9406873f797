-- ===== src/Http.antt =====
-- The HTTP client of the marketplace, infrastructure/http/.
pub mod Headers
pub mod Client
pub mod Environment
pub mod Profiles
pub mod OzonClient
