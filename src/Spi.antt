-- ===== src/Spi.antt =====
-- The board-to-board SPI link: the 32-byte slot codec and the streamer that finds slots in bytes.
pub mod Frame
pub mod Stream
