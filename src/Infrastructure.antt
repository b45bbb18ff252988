-- ===== src/Infrastructure.antt =====
-- internal/infrastructure: the adapters of mail and of the language model.
pub mod Smtp
pub mod Classifier
pub mod Llm
