-- ===== src/Worker.antt =====
-- The worker process, apps/api/src/worker: the handler of the payments queue and its backoff.
pub mod Backoff
pub mod Processor
mod Tests
