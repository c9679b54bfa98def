-- ===== src/Payments.antt =====
-- The payments API, apps/api/src/payments: its service and its controller.
pub mod Service
pub mod Controller
mod Tests
