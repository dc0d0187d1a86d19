-- ===== src/Actions/Keys/Tests.antt =====
-- The keyboard on concrete keys.
use hurra_v.Base.{◌≤◌, ◌<◌, ◌≡◌, refl, arith, false, not, ◌&&◌, List, [], ◌∷◌, length, replicate}
use hurra_v.Actions.Keys.{
  Keyboard, act_kb_init, act_kb_up, act_kb_press, act_kb_release_tick, act_kb_isdown, act_kb_down,
  kb_cancel_release, kb_insert, search_slots, hold, is_modifier, clear_slot, let_go, close_gap,
  last_first,
}
use hurra_v.Actions.Keys.Releases.{due}
use hurra_v.Actions.Keys.Ops.{IsSafe}
use hurra_v.Actions.Keys.Tick.{release_tick_lem}
use hurra_v.Actions.Keys.Run.{Command, down, up, press, run, run_command, run_keeps_IsSafe}

abbrev blank : Keyboard
blank = record { modifier = 0; keys = replicate 6 0; releases = [] }

-- Shift and `a` down, `b` and `c` pressed for 20 and 30 ms at 100 ms, `a` up.
abbrev typed : List Command
typed = down 0xe1 ∷ down 4 ∷ press 5 20 100 ∷ press 6 30 100 ∷ up 4 ∷ []

abbrev kb : Keyboard
kb = run (act_kb_init blank).0 typed

kb_state : kb ≡ record {
  modifier = 2;
  keys = 0 ∷ 5 ∷ 6 ∷ 0 ∷ 0 ∷ 0 ∷ [];
  releases = record { key = 5; at = 120 } ∷ record { key = 6; at = 130 } ∷ [];
}
unfolding run run_command act_kb_init act_kb_down act_kb_press act_kb_up kb_insert search_slots hold
    is_modifier clear_slot let_go kb_cancel_release close_gap last_first
kb_state = refl

kb-IsSafe : IsSafe kb
kb-IsSafe = (run_keeps_IsSafe blank typed).0

run_keeps_IsSafe_example : IsSafe kb × (length kb.releases ≤ 14)
run_keeps_IsSafe_example = run_keeps_IsSafe blank typed

release_tick_lem_example :
    (due 6 (act_kb_release_tick kb 125).0.releases 125 ≡ false)
    × (act_kb_isdown (act_kb_release_tick kb 125).0 5
        ≡ (not (due 5 kb.releases 125) && act_kb_isdown kb 5))
release_tick_lem_example = release_tick_lem kb 125 6 5 kb-IsSafe (omega arith)

accepted : 0 < length (act_kb_press kb 7 40 110).1
unfolding run run_command act_kb_init act_kb_down act_kb_press act_kb_up kb_insert search_slots hold
    is_modifier clear_slot let_go kb_cancel_release close_gap last_first
accepted = omega arith
