-- ===== src/Xfer.antt =====
-- What the link carries in pieces: the descriptor blob, and the HID reports.
pub mod Outcome
pub mod Desc
pub mod Report
