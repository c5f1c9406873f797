-- ===== src/Jobs.antt =====
-- Pipeline jobs: the job tables, the executor, the runners, submission and its keys.
pub mod Repository
pub mod Executor
pub mod Keys
pub mod Submit
pub mod Workers
