-- ===== src/Api.antt =====
-- The HTTP interface, interfaces/api/.
pub mod PublicPaths
pub mod RateLimit
pub mod App
pub mod OpenApi
pub mod Auth
pub mod Metrics
pub mod Health
pub mod Jobs
