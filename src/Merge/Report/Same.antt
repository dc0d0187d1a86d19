-- ===== src/Merge/Report/Same.antt =====
-- The fast path and the bit-field path do the same.
use hurra_v.Base.{ℕ, ◌+◌, ◌/◌, ◌≤◌, ◌<◌, ◌≡◌, refl, sym, subst, arith, Bool, true, false}
use hurra_v.Base.{List, ◌==◌}
use hurra_v.Base.Int.{ℤ, ◌+ℤ◌, limit}
use hurra_v.Hid.{MouseLayout}
use hurra_v.Hid.Derive.{derive}
use hurra_v.Hid.Field.{read_at}
use hurra_v.Hid.Field.Whole.{width, read_field_whole, write_field_whole}
use hurra_v.Merge.{Merge}
use hurra_v.Merge.Report.{
  usb_merge_take_injection, fast_axis, slow_axis, fast_wheel, slow_wheel, press,
  usb_merge_report_fast, usb_merge_report_slow, slow_axes, last_of, fp_need,
}
use hurra_v.Merge.Report.Plain.{
  IsPlaced, Wheel, wheel_here, wheel_absent, IsPlain, IsFound, derive-IsPlain,
}

axis_same :
    (wide : Bool) (byte bit size off : ℕ) (most inj : ℤ) (report : List ℕ) (len : ℕ)
    → IsPlaced wide byte bit size off
    → byte + width wide ≤ len
    → slow_axis bit size most inj report len off ≡ fast_axis wide byte most inj report
unfolding slow_axis fast_axis
axis_same wide byte bit size off most inj report len p h =
    let room : bit / 8 + off + width wide ≤ len = omega (arith, p.placed, h) in
    let r = read_field_whole wide report len bit off p.aligned p.word room in
    let w =
      write_field_whole wide report len bit off
        (limit most (read_at wide report (bit / 8 + off) +ℤ inj)) p.aligned p.word room in
    rw (p.sized, p.placed, r, w) refl

last-width : (wide : Bool) (i len : ℕ) → last_of wide i < len → i + width wide ≤ len
last-width true i len h = omega arith
last-width false i len h = omega arith

need_lem :
    (l : MouseLayout) (len : ℕ)
    → fp_need l < len
    → (l.x_byte + width l.x_is16 ≤ len)
      × (l.y_byte + width l.y_is16 ≤ len)
      × ((l.w_byte == 0xff) ≡ false → l.w_byte + width l.w_is16 ≤ len)
unfolding fp_need
need_lem l len h = (
  last-width l.x_is16 l.x_byte len (ground (arith, h)),
  last-width l.y_is16 l.y_byte len (ground (arith, h)),
  λ w. last-width l.w_is16 l.w_byte len (ground (arith, h, w)),
)

same_id : (n : ℕ) → (n == n) ≡ true
same_id n = ground arith

axes_same :
    (m : Merge) (inj_dx inj_dy : ℤ) (report : List ℕ) (len : ℕ)
    → IsPlain m.layout
    → fp_need m.layout < len
    → slow_axes m inj_dx inj_dy report len m.layout.report_id m.layout.data_off ≡ (
      (fast_axis m.layout.y_is16 m.layout.y_byte m.layout.y_max inj_dy
          (fast_axis m.layout.x_is16 m.layout.x_byte m.layout.x_max inj_dx
            (press m.inject.mouse_buttons m.layout.data_off report)).0).0,
      (fast_axis m.layout.x_is16 m.layout.x_byte m.layout.x_max inj_dx
          (press m.inject.mouse_buttons m.layout.data_off report)).1,
      (fast_axis m.layout.y_is16 m.layout.y_byte m.layout.y_max inj_dy
          (fast_axis m.layout.x_is16 m.layout.x_byte m.layout.x_max inj_dx
            (press m.inject.mouse_buttons m.layout.data_off report)).0).1,
    )
unfolding slow_axes
axes_same m inj_dx inj_dy report len p h =
    let l = m.layout in
    let n = need_lem l len h in
    let pressed = press m.inject.mouse_buttons l.data_off report in
    let x =
      axis_same l.x_is16 l.x_byte l.x_bit l.x_size l.data_off l.x_max inj_dx pressed len p.x_placed
        n.0 in
    let with_x = (fast_axis l.x_is16 l.x_byte l.x_max inj_dx pressed).0 in
    let y =
      axis_same l.y_is16 l.y_byte l.y_bit l.y_size l.data_off l.y_max inj_dy with_x len p.y_placed
        n.1 in
    rw (x, y, p.together, same_id l.report_id) refl

scroll_same :
    (l : MouseLayout) (wheel : ℤ) (report : List ℕ) (len : ℕ)
    → Wheel l
    → fp_need l < len
    → slow_wheel l wheel report len l.report_id l.data_off ≡ fast_wheel l wheel report
unfolding slow_wheel fast_wheel
scroll_same l wheel report len (wheel_here b n i p) h =
    let w =
      axis_same l.w_is16 l.w_byte l.wheel_bit l.wheel_size l.data_off l.w_max wheel report len p
        ((need_lem l len h).2 b) in
    rw (w, b, n, i, same_id l.report_id) (ground arith)
scroll_same l wheel report len (wheel_absent b n) h = rw b (ground (arith, n))

report_fast_same :
    (m : Merge) (report : List ℕ) (len : ℕ)
    → IsPlain m.layout
    → fp_need m.layout < len
    → usb_merge_report_fast m report
      ≡ usb_merge_report_slow m report len m.layout.report_id m.layout.data_off
unfolding usb_merge_report_fast usb_merge_report_slow
report_fast_same m report len p h =
    let t = usb_merge_take_injection m in
    let l = m.layout in
    let a = axes_same m t.1 t.2 report len p h in
    let with_y =
      (fast_axis l.y_is16 l.y_byte l.y_max t.2
        (fast_axis l.x_is16 l.x_byte l.x_max t.1
          (press m.inject.mouse_buttons l.data_off report)).0).0 in
    let w = scroll_same l m.inject.mouse_wheel with_y len p.wheel h in rw (a, w) refl

-- The parser found X and Y on whole bytes of one report, within its first 254 bytes, and the wheel there
-- too or not in this report; a report of that id covers the fields: then the fast path gives the same
-- report and leaves the same state as the path for bit fields.
pub derived_same :
    (m : Merge) (found : MouseLayout) (report : List ℕ) (len : ℕ)
    → IsFound found
    → m.layout ≡ derive found
    → fp_need m.layout < len
    → usb_merge_report_fast m report
      ≡ usb_merge_report_slow m report len m.layout.report_id m.layout.data_off
derived_same m found report len g e h =
    report_fast_same m report len (subst IsPlain (sym e) (derive-IsPlain found g)) h
