-- ===== src/Merge/Report/Conserve.antt =====
-- No motion is lost or made up: what the report carries and what is kept add up.
pub mod Fields
use hurra_v.Base.{
  ℕ, ◌+◌, ◌-◌, ◌*◌, ◌^◌, ◌≤◌, ◌<◌, ◌≡◌, ◌⊎◌, inl, inr, refl, ap, ◌∙◌, sym, subst, arith, Bool, true,
  false, not, ◌&&◌, ◌||◌, bit_or,
}
use hurra_v.Base.{List, get_or, length, length-set, ◌==◌, if◌then◌else◌, Bool-cases}
use hurra_v.Base.Int.{ℤ, pos, negsuc, plus, minus, ◌+ℤ◌, ◌-ℤ◌, limit, is_zero, wrap, of_word}
use hurra_v.Humanize.{humanize_return, humanize_pending}
use hurra_v.Humanize.Laws.{IsWhole, IsFrame, emit_lem}
use hurra_v.Hid.{MouseLayout}
use hurra_v.Hid.Field.{read_at}
use hurra_v.Hid.Field.Whole.{
  Fits, width, length-write_at, read_at-write_at, read_at-set, read_at_apart,
}
use hurra_v.Merge.{Merge}
use hurra_v.Merge.Report.{
  usb_merge_take_injection, fast_axis, fast_wheel, wheel_left, settle, press, usb_merge_report_fast,
}
use hurra_v.Merge.Report.Conserve.Fields.{
  most, AxisLaws, IsWithin, axis_laws, axis_small, axis_apart, Apart, Apart-flip, IsSpread,
  wheel_in, wheel_untouched, wheel_total, regroup,
}

taken_lem :
    (m : Merge)
    → IsWhole m.humanizer
    → ((usb_merge_take_injection m).1 +ℤ (usb_merge_take_injection m).0.humanizer.owed_x
        ≡ m.humanizer.owed_x +ℤ m.inject.mouse_dx)
      × ((usb_merge_take_injection m).2 +ℤ (usb_merge_take_injection m).0.humanizer.owed_y
          ≡ m.humanizer.owed_y +ℤ m.inject.mouse_dy)
      × IsFrame (usb_merge_take_injection m).1
      × IsFrame (usb_merge_take_injection m).2
unfolding usb_merge_take_injection
taken_lem m w =
    let e = emit_lem m.humanizer m.inject.mouse_dx m.inject.mouse_dy w in (e.0, e.1, e.2, e.3)

rotate : (o w d : ℤ) → o +ℤ w +ℤ d ≡ w +ℤ d +ℤ o
rotate o w d = ground arith

balance : (r d o w : ℤ) → r +ℤ d +ℤ (o +ℤ w) ≡ r +ℤ (w +ℤ d +ℤ o)
balance r d o w = regroup r d (o +ℤ w) ∙ ap (λ (q : ℤ). r +ℤ q) (rotate o w d)

-- One axis of the report: `r` in the field before, `k` injected or owed before.
total :
    (after r done o inj k : ℤ)
    → after ≡ r +ℤ done
    → wrap 16 (inj -ℤ done) +ℤ done ≡ inj
    → inj +ℤ o ≡ k
    → after +ℤ (o +ℤ wrap 16 (inj -ℤ done)) ≡ r +ℤ k
total after r done o inj k a b c =
    ap (λ (q : ℤ). q +ℤ (o +ℤ wrap 16 (inj -ℤ done))) a
    ∙ (balance r done o (wrap 16 (inj -ℤ done))
        ∙ (ap (λ (q : ℤ). r +ℤ (q +ℤ o)) b ∙ ap (λ (q : ℤ). r +ℤ q) c))

-- The sums that the humanizer keeps in a float are exact: they are integers below 2 ^ 24.
abbrev pub IsExact : ℤ → Type 0
IsExact v = IsWithin (2 ^ 24 - 1) v

near :
    (r done o v : ℤ)
    → r +ℤ done +ℤ o ≡ r +ℤ v
    → IsWithin 128 done
    → IsWithin (2 ^ 24 - 129) v
    → IsExact o
near r done o v e small big = ground (arith, e, small, big)

sum-IsWithin : (a b : ℤ) → IsWithin (2 ^ 23) a → IsWithin 4096 b → IsWithin (2 ^ 24 - 129) (a +ℤ b)
sum-IsWithin a b h k = ground (arith, h, k)

total-IsExact :
    (after r done o inj k : ℤ)
    → after ≡ r +ℤ done
    → wrap 16 (inj -ℤ done) +ℤ done ≡ inj
    → inj +ℤ o ≡ k
    → IsWithin 128 done
    → IsWithin (2 ^ 24 - 129) k
    → IsExact (o +ℤ wrap 16 (inj -ℤ done))
total-IsExact after r done o inj k a b c small big =
    near r done (o +ℤ wrap 16 (inj -ℤ done)) k
      (sym (ap (λ (q : ℤ). q +ℤ (o +ℤ wrap 16 (inj -ℤ done))) a) ∙ total after r done o inj k a b c)
      small big

-- The counts that are waiting: what the quantizer owes, and what has come in since the last report.
pub record IsBounded (m : Merge) : Type 0 where
  pub owed_x_small : IsWithin (2 ^ 23) m.humanizer.owed_x
  pub owed_y_small : IsWithin (2 ^ 23) m.humanizer.owed_y
  pub mouse_dx_small : IsWithin 4096 m.inject.mouse_dx
  pub mouse_dy_small : IsWithin 4096 m.inject.mouse_dy

-- The motion that was injected has been taken, once; the next report is due if a button is held, or if
-- anything of the wheel or of the motion is still to be sent.
abbrev pub IsTaken : Merge → Merge → Type 0
IsTaken m next =
    (next.inject.mouse_dx ≡ pos 0)
    × (next.inject.mouse_dy ≡ pos 0)
    × (next.inject.mouse_buttons ≡ m.inject.mouse_buttons)
    × (next.inject.mouse_dirty ≡ (
        not (m.inject.mouse_buttons == 0)
        || not (is_zero next.inject.mouse_wheel)
        || (not (is_zero next.humanizer.owed_x) || not (is_zero next.humanizer.owed_y))))

usb_merge_report_fast-IsTaken :
    (m : Merge) (report : List ℕ) → IsTaken m (usb_merge_report_fast m report).0
unfolding usb_merge_report_fast usb_merge_take_injection settle humanize_return humanize_pending
usb_merge_report_fast-IsTaken m report = (refl, refl, refl, refl)

-- The sums of each axis, and the wheel.
abbrev pub IsConserved : Merge → List ℕ → Merge → List ℕ → Type 0
IsConserved m report next sent =
    (read_at m.layout.x_is16 sent m.layout.x_byte +ℤ next.humanizer.owed_x
      ≡ read_at m.layout.x_is16 report m.layout.x_byte +ℤ (m.humanizer.owed_x +ℤ m.inject.mouse_dx))
    × (read_at m.layout.y_is16 sent m.layout.y_byte +ℤ next.humanizer.owed_y
        ≡ read_at m.layout.y_is16 report m.layout.y_byte
          +ℤ (m.humanizer.owed_y +ℤ m.inject.mouse_dy))
    × (wheel_in m.layout sent +ℤ next.inject.mouse_wheel
        ≡ wheel_in m.layout report +ℤ m.inject.mouse_wheel)

-- What the floats of the humanizer hold while the report is made.
abbrev pub IsInRange : Merge → Merge → Type 0
IsInRange m next =
    IsExact (m.humanizer.owed_x +ℤ m.inject.mouse_dx)
    × IsExact (m.humanizer.owed_y +ℤ m.inject.mouse_dy)
    × IsExact next.humanizer.owed_x
    × IsExact next.humanizer.owed_y

sums_lem :
    (m : Merge) (report : List ℕ)
    → IsSpread m.layout (length report)
    → IsWhole m.humanizer
    → IsFrame m.inject.mouse_wheel
    → IsBounded m
    → IsConserved m report (usb_merge_report_fast m report).0 (usb_merge_report_fast m report).1
      × IsInRange m (usb_merge_report_fast m report).0
unfolding usb_merge_report_fast settle humanize_return
sums_lem m report s w f d =
    let l = m.layout in
    let t = usb_merge_take_injection m in
    let tl = taken_lem m w in
    let b = bit_or (get_or report l.data_off 0) m.inject.mouse_buttons in
    let pressed = press m.inject.mouse_buttons l.data_off report in
    let n0 = length-set report l.data_off b in
    let with_x = (fast_axis l.x_is16 l.x_byte l.x_max t.1 pressed).0 in
    let x =
      axis_laws l.x_is16 l.x_byte l.x_max t.1 pressed s.x_most tl.2 (omega (arith, n0, s.x_room)) in
    let y =
      axis_laws l.y_is16 l.y_byte l.y_max t.2 with_x s.y_most tl.3
        (omega (arith, n0, x.3, s.y_room)) in
    let with_y = (fast_axis l.y_is16 l.y_byte l.y_max t.2 with_x).0 in
    let x_after =
      wheel_untouched l.x_is16 l.x_byte l m.inject.mouse_wheel with_y s.x_w
      ∙ (axis_apart l.x_is16 l.y_is16 l.x_byte l.y_byte l.y_max t.2 with_x s.x_y
          ∙ (x.0
              ∙ ap (λ (q : ℤ). q +ℤ (fast_axis l.x_is16 l.x_byte l.x_max t.1 pressed).1)
                  (read_at-set l.x_is16 report l.x_byte l.data_off b s.x_button))) in
    let y_before =
      axis_apart l.y_is16 l.x_is16 l.y_byte l.x_byte l.x_max t.1 pressed
        (Apart-flip l.x_byte (width l.x_is16) l.y_byte (width l.y_is16) s.x_y)
      ∙ read_at-set l.y_is16 report l.y_byte l.data_off b s.y_button in
    let y_after =
      wheel_untouched l.y_is16 l.y_byte l m.inject.mouse_wheel with_y s.y_w
      ∙ (y.0 ∙ ap (λ (q : ℤ). q +ℤ (fast_axis l.y_is16 l.y_byte l.y_max t.2 with_x).1) y_before) in
    let w_before =
      axis_apart l.w_is16 l.y_is16 l.w_byte l.y_byte l.y_max t.2 with_x
        (Apart-flip l.y_byte (width l.y_is16) l.w_byte (width l.w_is16) s.y_w)
      ∙ (axis_apart l.w_is16 l.x_is16 l.w_byte l.x_byte l.x_max t.1 pressed
            (Apart-flip l.x_byte (width l.x_is16) l.w_byte (width l.w_is16) s.x_w)
          ∙ read_at-set l.w_is16 report l.w_byte l.data_off b s.w_button) in
    let done_x = (fast_axis l.x_is16 l.x_byte l.x_max t.1 pressed).1 in
    let done_y = (fast_axis l.y_is16 l.y_byte l.y_max t.2 with_x).1 in
    let sent = (fast_wheel l m.inject.mouse_wheel with_y).0 in
    let kx = m.humanizer.owed_x +ℤ m.inject.mouse_dx in
    let ky = m.humanizer.owed_y +ℤ m.inject.mouse_dy in
    let bx = sum-IsWithin m.humanizer.owed_x m.inject.mouse_dx d.owed_x_small d.mouse_dx_small in
    let by = sum-IsWithin m.humanizer.owed_y m.inject.mouse_dy d.owed_y_small d.mouse_dy_small in
    let x_now = read_at l.x_is16 sent l.x_byte in
    let y_now = read_at l.y_is16 sent l.y_byte in
    let x_old = read_at l.x_is16 report l.x_byte in
    let y_old = read_at l.y_is16 report l.y_byte in
    let ox = t.0.humanizer.owed_x in
    let oy = t.0.humanizer.owed_y in
    (
      (
        total x_now x_old done_x ox t.1 kx x_after x.1 tl.0,
        total y_now y_old done_y oy t.2 ky y_after y.1 tl.1,
        wheel_total l m.inject.mouse_wheel with_y report s.w_most f
            (λ k. omega (arith, n0, x.3, y.3, s.w_room k)) w_before,
      ),
      (
        omega (arith, bx),
        omega (arith, by),
        total-IsExact x_now x_old done_x ox t.1 kx x_after x.1 tl.0
            (axis_small l.x_is16 l.x_byte l.x_max t.1 pressed s.x_most tl.2) bx,
        total-IsExact y_now y_old done_y oy t.2 ky y_after y.1 tl.1
            (axis_small l.y_is16 l.y_byte l.y_max t.2 with_x s.y_most tl.3) by,
      ),
    )

-- A report of the fast path with its fields apart and in the report, with no residue in the quantizer, a
-- pending wheel of at most 127, injected motion of at most 4096 and owed motion of at most 2^23 on each
-- axis. On each axis, the field of the new report and what is owed after it add up to the field of the
-- device's report, what was owed, and what was injected; and likewise for the wheel field, counted as 0
-- where the report has none, and the wheel that is still pending. The sums of owed and injected motion
-- and what is owed afterwards are below 2^24, where a float holds them exactly. The injected motion is
-- then 0, so that it is sent once, the injected buttons stay, and the next report is marked as due
-- exactly if a button is held or any of the wheel or of the owed motion is left.
pub report_conserves :
    (m : Merge) (report : List ℕ)
    → IsSpread m.layout (length report)
    → IsWhole m.humanizer
    → IsFrame m.inject.mouse_wheel
    → IsBounded m
    → IsConserved m report (usb_merge_report_fast m report).0 (usb_merge_report_fast m report).1
      × IsInRange m (usb_merge_report_fast m report).0
      × IsTaken m (usb_merge_report_fast m report).0
report_conserves m report s w f d =
    let sums = sums_lem m report s w f d in (sums.0, sums.1, usb_merge_report_fast-IsTaken m report)
