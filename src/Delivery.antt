-- ===== src/Delivery.antt =====
-- internal/delivery: how messages come in.
pub mod EmailIngest
pub mod Imap
