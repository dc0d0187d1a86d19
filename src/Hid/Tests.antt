-- ===== src/Hid/Tests.antt =====
-- The layout of the boot mouse.
use hurra_v.Hid.Parse.Ends.{Ends, items_end}
use hurra_v.Hid.Derive.Wide.{wide_axis_stuck}
use hurra_v.Base.{get_or, get_or-lt, ◌<◌, arith, ℕ, ◌≡◌, refl, true}
use hurra_v.Base.Int.{pos, negsuc, limit}
use hurra_v.Hid.{no_layout}
use hurra_v.Hid.Derive.{
  derive, limits, is_fast, wheel_is_fast, with_axes, with_wheel, byte_of, field_max,
}
use hurra_v.Hid.Parse.{
  start, hid_layout_parse_mouse, items, round, item, item_val, input, input_fields, usage_range,
  usage_of, note_field,
}
use hurra_v.Synth.{k_mouse_report_desc}

boot_mouse : hid_layout_parse_mouse k_mouse_report_desc 50 ≡ record no_layout {
  x_bit = 8;
  y_bit = 16;
  x_size = 8;
  y_size = 8;
  valid = true;
  x_max = pos 127;
  y_max = pos 127;
  fast_path = true;
  x_byte = 1;
  y_byte = 2;
  w_byte = 0xff;
}
unfolding hid_layout_parse_mouse items round item item_val input input_fields usage_range usage_of
    note_field derive limits is_fast wheel_is_fast with_axes with_wheel byte_of field_max
boot_mouse = refl

wide_axis_stuck_example : (field_max 24 ≡ negsuc 0) × (limit (field_max 24) (pos 300) ≡ pos 1)
wide_axis_stuck_example = wide_axis_stuck 24 (pos 300) (omega arith) (omega arith)

desc-IsByte : (i : ℕ) → get_or k_mouse_report_desc i 0 < 256
desc-IsByte i = get_or-lt 256 k_mouse_report_desc (omega arith) (omega arith) i

items_end_example : Ends 91 51 k_mouse_report_desc 50 0 start
items_end_example =
    items_end 90 50 k_mouse_report_desc 50 0 start desc-IsByte (omega arith) (omega arith)
      (omega arith)
