-- ===== src/Delivery/Imap.antt =====
-- internal/delivery/imap: what the poller does with the mailbox.
-- A tick's context is not cancelled while it runs, and no call panics.
pub mod Mailbox
pub mod Poller
pub mod Quarantine
pub mod Keeps
pub mod Tick
pub mod Filing
pub mod Loss
