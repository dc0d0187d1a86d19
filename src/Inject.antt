-- ===== src/Inject.antt =====
-- The host board's queue of injected records for the link.
pub mod Ring
