-- ===== src/Persistence.antt =====
-- infrastructure/io/ and the repositories of products of infrastructure/adapters/persistence/.
pub mod Files
pub mod Datasets
