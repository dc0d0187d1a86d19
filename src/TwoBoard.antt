-- ===== src/TwoBoard.antt =====
-- The loops of the two boards over the link.
pub mod Relay
