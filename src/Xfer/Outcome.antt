-- ===== src/Xfer/Outcome.antt =====
-- `desc_xfer_result_t` and `report_xfer_result_t`, which have the same three values.
pub data Outcome : Type 0 where
  in_progress complete restart : Outcome
