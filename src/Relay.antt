-- ===== src/Relay.antt =====
-- The relay process, apps/api/src/relay: publishing submissions to the queue of payments, and
-- driving payments again that were left behind.
pub mod Cleanup
pub mod Dates
pub mod Poll
pub mod Publishing
pub mod Reaper
mod Tests
