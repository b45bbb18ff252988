-- ===== src/Repository.antt =====
-- Package internal/repository.
pub mod Outbox
pub mod IngestControl
pub mod Submissions
