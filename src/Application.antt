-- ===== src/Application.antt =====
-- The application layer, application/.
pub mod RunPipeline
pub mod Assembly
