-- ===== src/Hid/Derive.antt =====
-- src/hid_layout.c, the end of `hid_layout_parse_mouse`: what follows from the fields found.
pub mod Wide
use hurra_v.Base.{
  ℕ, ◌+◌, ◌-◌, ◌/◌, ◌%◌, ◌^◌, Bool, true, false, ◌&&◌, ◌||◌, not, ltb, ◌==◌, if◌then◌else◌,
}
use hurra_v.Base.Int.{ℤ, pos, ◌-ℤ◌, wrap}
use hurra_v.Hid.{MouseLayout}

-- `(int16_t)((1 << (size - 1)) - 1)`
unfoldable pub field_max : ℕ → ℤ
field_max size = if ltb 0 size then wrap 16 (pos (2 ^ (size - 1)) -ℤ pos 1) else pos 0

abbrev pub is_whole : ℕ → Bool
is_whole size = size == 8 || size == 16

unfoldable pub byte_of : ℕ → ℕ → ℕ
byte_of bit data_off = (bit / 8 % 256 + data_off) % 256

unfoldable pub limits : MouseLayout → MouseLayout
limits ml = record ml {
  data_off = if ml.report_id == 0 then 0 else 1;
  valid = ltb 0 ml.x_size && ltb 0 ml.y_size;
  x_max = field_max ml.x_size;
  y_max = field_max ml.y_size;
  w_max = field_max ml.wheel_size;
  fast_path = false;
  w_byte = 0xff;
}

-- The two axes lie on whole bytes of one report.
unfoldable pub is_fast : MouseLayout → Bool
is_fast ml =
    ml.valid
    && (ml.x_bit % 8 == 0)
    && (ml.y_bit % 8 == 0)
    && is_whole ml.x_size
    && is_whole ml.y_size
    && (ml.report_id == ml.y_report_id)

unfoldable pub wheel_is_fast : MouseLayout → Bool
wheel_is_fast ml =
    not (ml.wheel_bit == 0xffff)
    && (ml.wheel_bit % 8 == 0)
    && is_whole ml.wheel_size
    && (ml.wheel_report_id == ml.report_id)

-- Where the bytes of the axes are, and of the wheel if it lies on whole bytes too.
unfoldable pub with_axes : MouseLayout → MouseLayout
with_axes ml = record ml {
  fast_path = true;
  x_byte = byte_of ml.x_bit ml.data_off;
  y_byte = byte_of ml.y_bit ml.data_off;
  x_is16 = ml.x_size == 16;
  y_is16 = ml.y_size == 16;
}

unfoldable pub with_wheel : MouseLayout → MouseLayout
with_wheel ml =
    if wheel_is_fast ml
    then record ml { w_byte = byte_of ml.wheel_bit ml.data_off; w_is16 = ml.wheel_size == 16 }
    else ml

unfoldable pub derive : MouseLayout → MouseLayout
derive found = let ml = limits found in if is_fast ml then with_wheel (with_axes ml) else ml
