-- ===== src/Actions/Mouse/Tests.antt =====
-- The mouse on concrete inputs.
use hurra_v.Base.{◌≡◌, refl, arith, true, false, [], ◌∷◌, ◌++◌, none}
use hurra_v.Base.Int.{pos, negsuc}
use hurra_v.Timing.{time_deadline_reached}
use hurra_v.Actions.Mouse.{
  Mouse, idle, still, bezier, no_motion, act_click, act_click_tick, act_motion_tick,
  act_motion_move_dur, end_click, btn_idx_to_mask, motion_start, progress,
}
use hurra_v.Actions.Mouse.Clicks.{click_ends}
use hurra_v.Actions.Mouse.Clicks.Run.{clicks, ticks, all_due}
use hurra_v.Actions.Mouse.Bezier.{bezier_goes_too_far}
use hurra_v.Actions.Mouse.Motion.{IsStraight, total_x, total_y}
use hurra_v.Actions.Mouse.Motion.Lands.{ticks as move_ticks, any_over, linear_lands}

abbrev resting : Mouse
resting = record {
  buttons = 2;
  click = idle;
  pos_x = pos 0;
  pos_y = pos 0;
  invert_x = false;
  invert_y = false;
  swap_xy = false;
  motion = record {
    kind = no_motion;
    start_ms = 0;
    dur_ms = 0;
    ex = pos 0;
    ey = pos 0;
    c1x = pos 0;
    c1y = pos 0;
    c2x = pos 0;
    c2y = pos 0;
    emit_x = pos 0;
    emit_y = pos 0;
  };
}

straight : IsStraight resting
straight = record { no_swap = refl; no_invert_x = refl; no_invert_y = refl }

-- The right button is down in a sequence that has not ended.
abbrev half_way : Mouse
half_way = record resting {
  click = record { button = 2; remaining = 1; delay_ms = 10; next_at = 105; pressed = true };
}

due_thrice : all_due (act_click half_way 1 2 10 100).0 (110 ∷ 125 ∷ 140 ∷ []) ≡ true
unfolding all_due act_click act_click_tick end_click btn_idx_to_mask time_deadline_reached
due_thrice = refl

-- Two clicks of the left button while a sequence of the right one is under way.
click_ends_example :
    ((ticks (act_click half_way 1 2 10 100).0 (110 ∷ 125 ∷ 140 ∷ [])).0
      ≡ record resting { buttons = 0 })
    × ((act_click half_way 1 2 10 100).1
          ++ (ticks (act_click half_way 1 2 10 100).0 (110 ∷ 125 ∷ 140 ∷ [])).1
        ≡ still 0 ∷ still 1 ∷ still 0 ∷ still 1 ∷ still 0 ∷ [])
unfolding clicks
click_ends_example =
    click_ends half_way 0 1 10 100 (110 ∷ 125 ∷ 140 ∷ []) (omega arith) (omega arith) refl
      due_thrice

over_once :
    any_over
      (act_motion_move_dur none resting (pos 100) (negsuc 49) 20 1000).0.motion
      (1007 ∷ 1013 ∷ 1024 ∷ [])
    ≡ true
unfolding any_over act_motion_move_dur motion_start progress
over_once = refl

linear_lands_example :
    (total_x
        (move_ticks
          (act_motion_move_dur none resting (pos 100) (negsuc 49) 20 1000).0
          (1007 ∷ 1013 ∷ 1024 ∷ [])).1
      ≡ pos 100)
    × (total_y
          (move_ticks
            (act_motion_move_dur none resting (pos 100) (negsuc 49) 20 1000).0
            (1007 ∷ 1013 ∷ 1024 ∷ [])).1
        ≡ negsuc 49)
    × ((move_ticks
          (act_motion_move_dur none resting (pos 100) (negsuc 49) 20 1000).0
          (1007 ∷ 1013 ∷ 1024 ∷ [])).0.motion.kind
        ≡ no_motion)
linear_lands_example =
    linear_lands none resting (pos 100) (negsuc 49) 20 1000 (1007 ∷ 1013 ∷ 1024 ∷ []) straight
      (omega arith, omega arith) (omega arith, omega arith) (omega arith) over_once

abbrev curving : Mouse
curving = record resting {
  motion = record resting.motion { kind = bezier; start_ms = 1000; dur_ms = 20; ex = negsuc 0 };
}

past_end : (progress curving.motion 1030).1 ≡ true
unfolding progress
past_end = refl

bezier_goes_too_far_example :
    ((act_motion_tick curving 1030).0.motion.emit_x ≡ negsuc 1)
    × ((act_motion_tick curving 1030).0.motion.kind ≡ bezier)
bezier_goes_too_far_example = bezier_goes_too_far curving 1030 0 refl past_end refl refl
