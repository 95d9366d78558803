-- ===== src/Jobs.antt =====
-- packages/jobs: the durable job queue and its workers.
pub mod Queue
pub mod Worker
pub mod Fence
pub mod Ending
pub mod Cron
pub mod Fires
mod Tests
