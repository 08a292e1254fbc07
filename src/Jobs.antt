-- ===== src/Jobs.antt =====
-- app/services/jobs: job records, the in-memory store and the runner.
pub mod Base
pub mod Store
pub mod Runner
