-- ===== src/Ferrum.antt =====
-- src/ferrum.c: the text commands.
pub mod Decimal
pub mod Args
pub mod Commands
pub mod Dispatch
pub mod Line
pub mod Notify
pub mod Tests
