-- ===== src/Examples.antt =====
-- Runs of the code at concrete inputs.
pub mod Again
pub mod App
pub mod Clients
pub mod Codec
pub mod Composition
pub mod Crm
pub mod Files
pub mod Keys
pub mod Jobs
pub mod Quota
pub mod Replicas
pub mod Repositories
pub mod Runs
pub mod Catalogue
pub mod Web
pub mod Workers
pub mod Routes
pub mod Assembly
