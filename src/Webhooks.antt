-- ===== src/Webhooks.antt =====
-- Webhooks, apps/api/src/webhooks: the delivery of notices to the endpoints of the clients.
pub mod Delivering
pub mod Dispatcher
pub mod Reaper
pub mod Endpoints
mod Tests
