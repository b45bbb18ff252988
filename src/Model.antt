-- ===== src/Model.antt =====
-- Package internal/model.
pub mod Submission
pub mod Lifecycle
pub mod Checklist
pub mod Reply
pub mod Digest
pub mod Documents
