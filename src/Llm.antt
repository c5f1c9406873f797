-- ===== src/Llm.antt =====
-- The classification of products by a language model, infrastructure/adapters/llm/.
pub mod Classifier
