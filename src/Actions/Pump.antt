-- ===== src/Actions/Pump.antt =====
-- src/actions.c, the whole: the start-up state, the switches, and `act_tick`, which every loop calls.
use hurra_v.Base.{ℕ, ◌≡◌, refl, Bool, List, [], ◌++◌, replicate}
use hurra_v.Base.Int.{pos}
use hurra_v.Actions.Keys.{Keyboard, Snapshot, act_kb_release_tick, release_loop}
use hurra_v.Actions.Masks.{Masks}
use hurra_v.Actions.Mouse.{
  Mouse, Move, MotionProgram, idle, no_motion, act_motion_tick, act_click_tick,
}

-- The variables of the file, but for the streaming filter.
pub record Actions : Type 0 where
  pub mouse : Mouse
  pub keyboard : Keyboard
  pub masks : Masks
  pub lock_mask : ℕ

abbrev pub no_program : MotionProgram
no_program = record {
  kind = no_motion;
  start_ms = 0;
  dur_ms = 0;
  ex = pos 0;
  ey = pos 0;
  c1x = pos 0;
  c1y = pos 0;
  c2x = pos 0;
  c2y = pos 0;
  emit_x = pos 0;
  emit_y = pos 0;
}

-- The three switches stay as they are.
pub act_init : Actions → Actions
act_init a = record {
  mouse = record a.mouse {
    buttons = 0;
    click = idle;
    pos_x = pos 0;
    pos_y = pos 0;
    motion = no_program;
  };
  keyboard = record { modifier = 0; keys = replicate 6 0; releases = [] };
  masks = record { mouse = 0; keys = [] };
  lock_mask = 0;
}

pub act_set_invert_x : Mouse → Bool → Mouse
act_set_invert_x m on = record m { invert_x = on }

pub act_set_invert_y : Mouse → Bool → Mouse
act_set_invert_y m on = record m { invert_y = on }

pub act_set_swap_xy : Mouse → Bool → Mouse
act_set_swap_xy m on = record m { swap_xy = on }

-- `now` is what `millis` returns.
pub act_tick : Actions → ℕ → Actions × List Move × List Snapshot
act_tick a now =
    let (moved, moves) = act_motion_tick a.mouse now in
    let (clicked, presses) = act_click_tick moved now in
    let (keyboard, snapshots) = act_kb_release_tick a.keyboard now in
    (record a { mouse = clicked; keyboard = keyboard }, moves ++ presses, snapshots)

-- After the start-up nothing is scheduled: a tick, whenever it comes, changes nothing and sends nothing.
pub act_tick-act_init : (a : Actions) (now : ℕ) → act_tick (act_init a) now ≡ (act_init a, [], [])
unfolding act_tick act_init act_motion_tick act_click_tick act_kb_release_tick release_loop
act_tick-act_init a now = refl
