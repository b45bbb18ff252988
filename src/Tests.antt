-- ===== src/Tests.antt =====
-- Runs of the theorems at concrete inputs.
pub mod Data
pub mod Model
pub mod Outbox
pub mod Service
pub mod Mail
pub mod Polling
pub mod Workers
