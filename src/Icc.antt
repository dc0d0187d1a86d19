-- ===== src/Icc.antt =====
-- The inter-core channel: the command core's local queue and the mailbox between the two cores.
pub mod Ring
pub mod Mailbox
pub mod Status
