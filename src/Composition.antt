-- ===== src/Composition.antt =====
-- infrastructure/config/settings.py, infrastructure/composition/ and the parts of
-- infrastructure/workers/celery_app.py and interfaces/api that choose an adapter: which adapters
-- the settings stand for.
pub mod Settings
pub mod Factories
pub mod Connections
pub mod Cli
