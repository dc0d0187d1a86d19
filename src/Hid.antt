-- ===== src/Hid.antt =====
-- src/hid_layout.h: where a mouse report has its fields.
pub mod Field
pub mod Derive
pub mod Parse
mod Tests
use hurra_v.Base.{ℕ, Bool, false}
use hurra_v.Base.Int.{ℤ, pos}

-- `mouse_layout_t`
pub record MouseLayout : Type 0 where
  pub x_bit : ℕ
  pub y_bit : ℕ
  pub wheel_bit : ℕ
  pub x_size : ℕ
  pub y_size : ℕ
  pub wheel_size : ℕ
  pub report_id : ℕ
  pub y_report_id : ℕ
  pub wheel_report_id : ℕ
  pub data_off : ℕ
  pub valid : Bool
  pub x_max : ℤ
  pub y_max : ℤ
  pub w_max : ℤ
  pub fast_path : Bool
  pub x_byte : ℕ
  pub y_byte : ℕ
  pub w_byte : ℕ
  pub x_is16 : Bool
  pub y_is16 : Bool
  pub w_is16 : Bool

-- Cleared, without a wheel.
abbrev pub no_layout : MouseLayout
no_layout = record {
  x_bit = 0;
  y_bit = 0;
  wheel_bit = 0xffff;
  x_size = 0;
  y_size = 0;
  wheel_size = 0;
  report_id = 0;
  y_report_id = 0;
  wheel_report_id = 0;
  data_off = 0;
  valid = false;
  x_max = pos 0;
  y_max = pos 0;
  w_max = pos 0;
  fast_path = false;
  x_byte = 0;
  y_byte = 0;
  w_byte = 0;
  x_is16 = false;
  y_is16 = false;
  w_is16 = false;
}
