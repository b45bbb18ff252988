-- ===== src/Service.antt =====
-- Package internal/service.
pub mod World
pub mod Frame
pub mod Threads
pub mod Documents
pub mod Evaluate
pub mod Ingest
pub mod Dispatch
pub mod Hold
pub mod Escalation
pub mod Summary
