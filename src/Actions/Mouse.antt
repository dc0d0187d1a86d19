-- ===== src/Actions/Mouse.antt =====
-- src/actions.c, the mouse: the buttons, the click sequence, and the motion program.
pub mod Clicks
pub mod Motion
pub mod Bezier
mod Tests
use hurra_v.Base.{
  ℕ, zero, suc, ◌+◌, ◌-◌, ◌*◌, ◌/◌, ◌%◌, ◌^◌, min, Bool, true, false, ◌&&◌, ◌||◌, not, bit_and,
  bit_or,
}
use hurra_v.Base.{Option, none, some, List, [], ◌∷◌, ◌++◌, ltb, leb, ◌==◌, if◌then◌else◌}
use hurra_v.Base.Int.{ℤ, pos, negsuc, ◌+ℤ◌, ◌-ℤ◌, scale, shr, is_zero, int_eq, wrap, clamp}
use hurra_v.Timing.{time_deadline_reached}

-- What `kmbox_inject_mouse` is given.
pub record Move : Type 0 where
  pub dx : ℤ
  pub dy : ℤ
  pub buttons : ℕ
  pub wheel : ℤ

abbrev pub still : ℕ → Move
still buttons = record { dx = pos 0; dy = pos 0; buttons = buttons; wheel = pos 0 }

-- `act_click_sched_t`
pub record ClickSched : Type 0 where
  pub button : ℕ
  pub remaining : ℕ
  pub delay_ms : ℕ
  pub next_at : ℕ
  pub pressed : Bool

abbrev pub idle : ClickSched
idle = record { button = 0; remaining = 0; delay_ms = 0; next_at = 0; pressed = false }

-- `motion_kind_t`
pub data MotionKind : Type 0 where
  no_motion linear bezier : MotionKind

-- `g_motion`
pub record MotionProgram : Type 0 where
  pub kind : MotionKind
  pub start_ms : ℕ
  pub dur_ms : ℕ
  pub ex : ℤ
  pub ey : ℤ
  pub c1x : ℤ
  pub c1y : ℤ
  pub c2x : ℤ
  pub c2y : ℤ
  pub emit_x : ℤ
  pub emit_y : ℤ

-- `g_buttons`, `g_click_sched`, `g_pos_x`, `g_pos_y`, the three switches and `g_motion`.
pub record Mouse : Type 0 where
  pub buttons : ℕ
  pub click : ClickSched
  pub pos_x : ℤ
  pub pos_y : ℤ
  pub invert_x : Bool
  pub invert_y : Bool
  pub swap_xy : Bool
  pub motion : MotionProgram

pub btn_idx_to_mask : ℕ → ℕ
btn_idx_to_mask idx = if leb 1 idx && leb idx 5 then 2 ^ (idx - 1) else 0

abbrev pub release : ℕ → ℕ → ℕ
release buttons mask = bit_and buttons (255 - mask)

-- True for the return of 0, false for that of -1.
pub act_button_set : Mouse → ℕ → ℕ → Mouse × List Move × Bool
act_button_set m mask action =
    let up = release m.buttons mask in
    let down = bit_or m.buttons mask in
    if action == 0
    then (record m { buttons = up }, still up ∷ [], true)
    else if action == 1
    then (record m { buttons = down }, still down ∷ [], true)
    else if action == 2
    then (record m { buttons = up }, [], true)
    else (m, [], false)

-- A click sequence that is still running and left another button down releases it first.
pub end_click : Mouse → ℕ → Mouse × List Move
end_click m mask =
    let old_mask = btn_idx_to_mask m.click.button in
    if not (m.click.button == 0) && m.click.pressed && not (old_mask == 0) && not (old_mask == mask)
    then (
      record m { buttons = release m.buttons old_mask },
      still (release m.buttons old_mask) ∷ [],
    )
    else (m, [])

pub act_click : Mouse → ℕ → ℕ → ℕ → ℕ → Mouse × List Move
act_click m button_1based count delay_ms now =
    let mask = btn_idx_to_mask button_1based in
    if mask == 0 || count == 0
    then (m, [])
    else let delay = if ltb 0x7fffffff delay_ms then 0x7fffffff else delay_ms in
      let (ended, out) = end_click m mask in
      let down = bit_or ended.buttons mask in
      (
        record ended {
          buttons = down;
          click = record {
            button = button_1based;
            remaining = count - 1;
            delay_ms = delay;
            next_at = (now + delay) % 2 ^ 32;
            pressed = true;
          };
        },
        out ++ (still down ∷ []),
      )

unfoldable pub act_click_tick : Mouse → ℕ → Mouse × List Move
act_click_tick m now =
    if m.click.button == 0 || not (time_deadline_reached now m.click.next_at)
    then (m, [])
    else let mask = btn_idx_to_mask m.click.button in
      let next_at = (now + m.click.delay_ms) % 2 ^ 32 in
      let up = release m.buttons mask in
      let down = bit_or m.buttons mask in
      if m.click.pressed
      then (
        record m {
          buttons = up;
          click = if m.click.remaining == 0 then idle else record m.click {
            remaining = m.click.remaining - 1;
            pressed = false;
            next_at = next_at;
          };
        },
        still up ∷ [],
      )
      else (
        record m { buttons = down; click = record m.click { pressed = true; next_at = next_at } },
        still down ∷ [],
      )

-- Swapped and inverted; the negation of -32768 is itself, as the cast gives it.
unfoldable pub transform : Mouse → ℤ → ℤ → ℤ × ℤ
transform m dx dy =
    let x = if m.swap_xy then dy else dx in
    let y = if m.swap_xy then dx else dy in
    (if m.invert_x then wrap 16 (pos 0 -ℤ x) else x, if m.invert_y then wrap 16 (pos 0 -ℤ y) else y)

unfoldable pub act_move_raw : Mouse → ℤ → ℤ → Mouse × List Move
act_move_raw m dx dy =
    let (x, y) = transform m dx dy in
    (
      record m { pos_x = clamp 0x7fffffff (m.pos_x +ℤ x); pos_y = clamp 0x7fffffff (m.pos_y +ℤ y) },
      record { dx = x; dy = y; buttons = m.buttons; wheel = pos 0 } ∷ [],
    )

-- `filter` is the streaming filter, if one is set.
unfoldable pub act_move : Option (ℤ × ℤ → ℤ × ℤ) → Mouse → ℤ → ℤ → Mouse × List Move
act_move filter m dx dy =
    let stopped : Mouse = record m { motion = record m.motion { kind = no_motion } } in
    elim filter [
      | none ↦ act_move_raw stopped dx dy
      | some apply ↦ act_move_raw stopped (apply (dx, dy)).0 (apply (dx, dy)).1
    ]

pub act_wheel : Mouse → ℤ → List Move
act_wheel m ticks = record { dx = pos 0; dy = pos 0; buttons = m.buttons; wheel = ticks } ∷ []

-- What is added to round to the nearest.
abbrev pub half_up : ℤ → ℤ
half_up (pos _) = pos (2 ^ 15)
half_up (negsuc _) = negsuc (2 ^ 15 - 1)

-- `one` is 65536, and `t_q` is at most that, so that no product reaches 2 ^ 63.
pub bezier_axis : ℤ → ℤ → ℤ → ℕ → ℕ → ℤ
bezier_axis c1 c2 e t_q one =
    let u = one - t_q in
    let t2 = t_q * t_q / 2 ^ 16 in
    let u2 = u * u / 2 ^ 16 in
    let b1 = 3 * (u2 * t_q / 2 ^ 16) in
    let b2 = 3 * (t2 * u / 2 ^ 16) in
    let b3 = t2 * t_q / 2 ^ 16 in
    let acc = scale b1 c1 +ℤ scale b2 c2 +ℤ scale b3 e in shr (acc +ℤ half_up acc) 16

pub ease_smoothstep : ℕ → ℕ → ℕ
ease_smoothstep t_q one =
    let t2 = t_q * t_q / 2 ^ 16 in let t3 = t2 * t_q / 2 ^ 16 in min (3 * t2 - 2 * t3) one

pub motion_start : Mouse → MotionKind → ℤ → ℤ → ℕ → ℕ → Mouse
motion_start m kind dx dy dur_ms now = record m {
  motion = record m.motion {
    kind = kind;
    start_ms = now;
    dur_ms = dur_ms;
    ex = dx;
    ey = dy;
    emit_x = pos 0;
    emit_y = pos 0;
  };
}

pub act_motion_move_dur : Option (ℤ × ℤ → ℤ × ℤ) → Mouse → ℤ → ℤ → ℕ → ℕ → Mouse × List Move
act_motion_move_dur filter m dx dy dur_ms now =
    if dur_ms == 0 then act_move filter m dx dy else (motion_start m linear dx dy dur_ms now, [])

pub act_motion_bezier :
    Option (ℤ × ℤ → ℤ × ℤ) → Mouse → ℤ → ℤ → ℕ → ℤ → ℤ → ℤ → ℤ → ℕ → Mouse × List Move
act_motion_bezier filter m dx dy dur_ms x1 y1 x2 y2 now =
    if dur_ms == 0
    then act_move filter m dx dy
    else let started = motion_start m bezier dx dy dur_ms now in
      (
        record started {
          motion = record started.motion { c1x = x1; c1y = y1; c2x = x2; c2y = y2 };
        },
        [],
      )

pub act_motion_cancel : Mouse → Mouse
act_motion_cancel m = record m { motion = record m.motion { kind = no_motion } }

-- How far along the program is, in sixteenth-bit fixed point, and whether it is over.
pub progress : MotionProgram → ℕ → ℕ × Bool
progress p now =
    let elapsed = (now + 2 ^ 32 - p.start_ms) % 2 ^ 32 in
    if leb p.dur_ms elapsed then (65536, true) else (elapsed * 2 ^ 16 % 2 ^ 32 / p.dur_ms, false)

-- Where the program stands at `t_q`.
pub target : MotionProgram → ℕ → ℤ × ℤ
target p t_q = elim p.kind [
  | bezier ↦ (bezier_axis p.c1x p.c2x p.ex t_q 65536, bezier_axis p.c1y p.c2y p.ey t_q 65536)
  | linear ↦ let s = ease_smoothstep t_q 65536 in (shr (scale s p.ex) 16, shr (scale s p.ey) 16)
  | no_motion ↦ let s = ease_smoothstep t_q 65536 in (shr (scale s p.ex) 16, shr (scale s p.ey) 16)
]

-- `if (step_x || step_y) act_move_raw(…)`
pub send_step : Mouse → ℤ → ℤ → Mouse × List Move
send_step m step_x step_y =
    if is_zero step_x && is_zero step_y then (m, []) else act_move_raw m step_x step_y

-- A tick of a running program.
pub motion_step : Mouse → ℕ → Mouse × List Move
motion_step m now =
    let p = m.motion in
    let (t_q, last) = progress p now in
    let (px, py) = target p t_q in
    let step_x = clamp 0x7fff (px -ℤ p.emit_x) in
    let step_y = clamp 0x7fff (py -ℤ p.emit_y) in
    let emit_x = p.emit_x +ℤ step_x in
    let emit_y = p.emit_y +ℤ step_y in
    let (moved, out) = send_step m step_x step_y in
    (
      record moved {
        motion = record p {
          emit_x = emit_x;
          emit_y = emit_y;
          kind = if last && int_eq emit_x p.ex && int_eq emit_y p.ey then no_motion else p.kind;
        };
      },
      out,
    )

unfoldable pub act_motion_tick : Mouse → ℕ → Mouse × List Move
act_motion_tick m now = elim m.motion.kind [
  | no_motion ↦ (m, [])
  | linear ↦ motion_step m now
  | bezier ↦ motion_step m now
]
