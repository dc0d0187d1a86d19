-- ===== src/Actions/Keys/Run.antt =====
-- Any sequence of key commands and ticks.
use hurra_v.Base.{ℕ, ◌≤◌, refl, arith, List, [], ◌∷◌, length}
use hurra_v.Actions.Keys.{
  Keyboard, act_kb_down, act_kb_up, act_kb_press, act_kb_release_tick, act_kb_init, is_modifier,
}
use hurra_v.Actions.Keys.Ops.{IsSafe, act_kb_down_lem, act_kb_up_lem, act_kb_press_lem}
use hurra_v.Actions.Keys.Tick.{tick-IsSafe}
use hurra_v.Actions.Keys.Room.{releases_fit}

-- A command, with the time where the code asks for it.
pub data Command : Type 0 where
  down up : (key : ℕ) → Command
  press : (key delay_ms now : ℕ) → Command
  tick : (now : ℕ) → Command

unfoldable pub run_command : Keyboard → Command → Keyboard
run_command kb (down key) = (act_kb_down kb key).0
run_command kb (up key) = (act_kb_up kb key).0
run_command kb (press key delay_ms now) = (act_kb_press kb key delay_ms now).0
run_command kb (tick now) = (act_kb_release_tick kb now).0

unfoldable pub run : Keyboard → List Command → Keyboard
run kb [] = kb
run kb (c ∷ cs) = run (run_command kb c) cs

run_command-IsSafe : (kb : Keyboard) (c : Command) → IsSafe kb → IsSafe (run_command kb c)
unfolding run_command
run_command-IsSafe kb (down key) s = (act_kb_down_lem kb key 1 s (omega arith)).0
run_command-IsSafe kb (up key) s = (act_kb_up_lem kb key 1 s (omega arith)).0
run_command-IsSafe kb (press key delay_ms now) s =
    (act_kb_press_lem kb key delay_ms now 1 s (omega arith)).0
run_command-IsSafe kb (tick now) s = tick-IsSafe kb now s

run-IsSafe : (cs : List Command) (kb : Keyboard) → IsSafe kb → IsSafe (run kb cs)
unfolding run
run-IsSafe [] kb s = s
run-IsSafe (c ∷ cs) kb s = run-IsSafe cs (run_command kb c) (run_command-IsSafe kb c s)

pub init-IsSafe : (kb : Keyboard) → IsSafe (act_kb_init kb).0
unfolding act_kb_init is_modifier
init-IsSafe kb = record {
  valid = record {
    six = refl;
    byte = omega arith;
    single = λ q ne. ground (arith, ne);
    plain = λ q h. ground (arith, h);
  };
  once = λ q. omega arith;
  live = λ q h. absurd (omega (arith, h));
}

-- After `act_kb_init`, whatever keys go down, up, are pressed or expire, in any order: there are six
-- slots and a modifier byte, no key stands in two slots and no modifier key in any, every scheduled
-- release is of a key that is down, no key has two, and the fourteen entries are enough.
pub run_keeps_IsSafe :
    (kb : Keyboard) (cs : List Command)
    → IsSafe (run (act_kb_init kb).0 cs) × (length (run (act_kb_init kb).0 cs).releases ≤ 14)
run_keeps_IsSafe kb cs =
    let s = run-IsSafe cs (act_kb_init kb).0 (init-IsSafe kb) in
    (s, releases_fit (run (act_kb_init kb).0 cs) s)
