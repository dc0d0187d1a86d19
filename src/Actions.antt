-- ===== src/Actions.antt =====
-- The injection actions of src/actions.c, which the command protocols call.
pub mod Keys
pub mod Masks
pub mod Mouse
pub mod Pump
