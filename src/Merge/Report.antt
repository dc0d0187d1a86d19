-- ===== src/Merge/Report.antt =====
-- src/usb_merge.c: injected input goes into a report of the device.
pub mod Keyboard
pub mod Conserve
pub mod Plain
pub mod Same
use hurra_v.Base.{ℕ, ◌+◌, ◌-◌, ◌*◌, ◌^◌, max, Bool, true, false, not, ◌&&◌, ◌||◌, bit_and, bit_or}
use hurra_v.Base.{List, get_or, set, ltb, ◌==◌, if◌then◌else◌}
use hurra_v.Base.Int.{ℤ, pos, ◌+ℤ◌, ◌-ℤ◌, limit, is_zero, wrap}
use hurra_v.Humanize.{Humanize, humanize_inject_emit, humanize_return, humanize_pending}
use hurra_v.Hid.{MouseLayout}
use hurra_v.Hid.Field.{hid_layout_read_field, write_report_field, read_at, write_at}
use hurra_v.Merge.{Inject, Merge}

-- The new state, and the injected motion of this frame.
unfoldable pub usb_merge_take_injection : Merge → Merge × ℤ × ℤ
usb_merge_take_injection m =
    let (humanizer, dx, dy) =
      humanize_inject_emit m.humanizer m.inject.mouse_dx m.inject.mouse_dy in
    (
      record m {
        inject = record m.inject { mouse_dx = pos 0; mouse_dy = pos 0 };
        humanizer = humanizer;
      },
      dx,
      dy,
    )

-- An axis on whole bytes: the new report, and by how much the field changed.
unfoldable pub fast_axis : Bool → ℕ → ℤ → ℤ → List ℕ → List ℕ × ℤ
fast_axis wide i max inj report =
    let r = read_at wide report i in
    let merged = limit max (r +ℤ inj) in (write_at wide report i merged, merged -ℤ r)

-- An axis on a bit field.
unfoldable pub slow_axis : ℕ → ℕ → ℤ → ℤ → List ℕ → ℕ → ℕ → List ℕ × ℤ
slow_axis bit size max inj report len doff =
    let r = hid_layout_read_field report len bit size doff in
    let merged = limit max (r +ℤ inj) in
    (write_report_field report len bit size doff merged, merged -ℤ r)

-- What the field could not take of the wheel stays for the next frame: `want - mw`.
abbrev pub wheel_left : ℤ → ℤ → ℤ
wheel_left wheel done = wrap 8 (wheel -ℤ done)

unfoldable pub fast_wheel : MouseLayout → ℤ → List ℕ → List ℕ × ℤ
fast_wheel l wheel report =
    let (written, done) = fast_axis l.w_is16 l.w_byte l.w_max wheel report in
    if not (l.w_byte == 0xff) && not (is_zero wheel)
    then (written, wheel_left wheel done)
    else (report, wheel)

unfoldable pub slow_wheel : MouseLayout → ℤ → List ℕ → ℕ → ℕ → ℕ → List ℕ × ℤ
slow_wheel l wheel report len rid doff =
    let (written, done) = slow_axis l.wheel_bit l.wheel_size l.w_max wheel report len doff in
    if not (l.wheel_bit == 0xffff) && not (is_zero wheel) && (rid == l.wheel_report_id)
    then (written, wheel_left wheel done)
    else (report, wheel)

-- The end of both paths: what was not done is returned, and `mouse_dirty` is set anew.
unfoldable pub settle : Merge → ℤ → ℤ → ℤ → ℤ → ℤ → Merge
settle m inj_dx inj_dy done_dx done_dy wheel =
    let humanizer =
      humanize_return m.humanizer (wrap 16 (inj_dx -ℤ done_dx)) (wrap 16 (inj_dy -ℤ done_dy)) in
    record m {
      humanizer = humanizer;
      inject = record m.inject {
        mouse_wheel = wheel;
        mouse_dirty =
            not (m.inject.mouse_buttons == 0) || not (is_zero wheel) || humanize_pending humanizer;
      };
    }

abbrev pub press : ℕ → ℕ → List ℕ → List ℕ
press buttons doff report = set report doff (bit_or (get_or report doff 0) buttons)

unfoldable pub usb_merge_report_fast : Merge → List ℕ → Merge × List ℕ
usb_merge_report_fast m report =
    let l = m.layout in
    let pressed = press m.inject.mouse_buttons l.data_off report in
    let (taken, inj_dx, inj_dy) = usb_merge_take_injection m in
    let (with_x, done_dx) = fast_axis l.x_is16 l.x_byte l.x_max inj_dx pressed in
    let (with_y, done_dy) = fast_axis l.y_is16 l.y_byte l.y_max inj_dy with_x in
    let (with_wheel, wheel) = fast_wheel l m.inject.mouse_wheel with_y in
    (settle taken inj_dx inj_dy done_dx done_dy wheel, with_wheel)

-- X, and Y where it is in the same report: the new report and the two changes.
unfoldable pub slow_axes : Merge → ℤ → ℤ → List ℕ → ℕ → ℕ → ℕ → List ℕ × ℤ × ℤ
slow_axes m inj_dx inj_dy report len rid doff =
    let l = m.layout in
    let pressed = press m.inject.mouse_buttons doff report in
    let (with_x, done_dx) = slow_axis l.x_bit l.x_size l.x_max inj_dx pressed len doff in
    let (with_y, done_dy) = slow_axis l.y_bit l.y_size l.y_max inj_dy with_x len doff in
    if rid == l.report_id
    then (if rid == l.y_report_id then (with_y, done_dx, done_dy) else (with_x, done_dx, pos 0))
    else (report, pos 0, pos 0)

unfoldable pub usb_merge_report_slow : Merge → List ℕ → ℕ → ℕ → ℕ → Merge × List ℕ
usb_merge_report_slow m report len rid doff =
    let (taken, inj_dx, inj_dy) = usb_merge_take_injection m in
    let (with_axes, done_dx, done_dy) = slow_axes m inj_dx inj_dy report len rid doff in
    let (with_wheel, wheel) = slow_wheel m.layout m.inject.mouse_wheel with_axes len rid doff in
    (settle taken inj_dx inj_dy done_dx done_dy wheel, with_wheel)

-- The highest byte that the fast path touches.
abbrev pub last_of : Bool → ℕ → ℕ
last_of true i = i + 1
last_of false i = i

unfoldable pub fp_need : MouseLayout → ℕ
fp_need l =
    let axes = max (max l.data_off (last_of l.x_is16 l.x_byte)) (last_of l.y_is16 l.y_byte) in
    if l.w_byte == 0xff then axes else max axes (last_of l.w_is16 l.w_byte)

-- The masked part of the device's own input goes; bit `c` of the mask is the code `c` of the
-- `PHYS_MASK_` names, of which 0 to 4 are buttons, 5 and 6 the axes and 7 the wheel.
unfoldable pub masked : Merge → ℕ → Bool
masked m code = not (bit_and m.masks.mouse (2 ^ code) == 0)

unfoldable pub clear_field : Bool → List ℕ → ℕ → ℕ → ℕ → ℕ → List ℕ
clear_field on report len bit size doff =
    if on then write_report_field report len bit size doff (pos 0) else report

unfoldable pub usb_merge_phys_mouse : Merge → List ℕ → ℕ → List ℕ
usb_merge_phys_mouse m report len =
    let l = m.layout in
    let doff = l.data_off in
    let rid = if doff == 0 then 0 else get_or report 0 0 in
    let xy_here = rid == l.report_id in
    let wheel_here = not (l.wheel_bit == 0xffff) && (rid == l.wheel_report_id) in
    let bmask = bit_and m.masks.mouse 0x1f in
    let no_buttons =
      if xy_here && not (bmask == 0)
      then set report doff (bit_and (get_or report doff 0) (255 - bmask))
      else report in
    let no_x = clear_field (xy_here && masked m 5) no_buttons len l.x_bit l.x_size doff in
    let no_y = clear_field (xy_here && masked m 6) no_x len l.y_bit l.y_size doff in
    let no_wheel = clear_field (wheel_here && masked m 7) no_y len l.wheel_bit l.wheel_size doff in
    if ltb doff len then no_wheel else report

-- The branch of a mouse report, after the masks.
unfoldable pub merge_mouse : Merge → List ℕ → ℕ → Merge × List ℕ
merge_mouse m report len =
    let l = m.layout in
    let doff = l.data_off in
    let rid = if doff == 0 then 0 else get_or report 0 0 in
    if l.valid && m.inject.mouse_dirty && ltb doff len
    then (if l.fast_path && ltb (fp_need l) len && (rid == l.report_id)
        then usb_merge_report_fast m report
        else usb_merge_report_slow m report len rid doff)
    else (m, report)
