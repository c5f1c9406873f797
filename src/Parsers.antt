-- ===== src/Parsers.antt =====
-- The catalogue collectors, infrastructure/adapters/parsers/.
pub mod Ozon
pub mod Mock
