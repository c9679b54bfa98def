-- ===== src/Console.antt =====
-- The operations console, apps/web/src: what its pages keep and show, and what they ask the API.
pub mod Architecture
pub mod Chaos
pub mod Client
pub mod Ids
pub mod Pages
pub mod Polling
pub mod Queries
pub mod SubmitForm
mod Tests
pub mod Views
