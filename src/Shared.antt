-- ===== src/Shared.antt =====
-- packages/shared/src/index.ts: the vocabulary that the API, the worker and the relay share.
pub mod Status
pub mod Money
mod Tests
