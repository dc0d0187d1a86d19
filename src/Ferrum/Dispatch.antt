-- ===== src/Ferrum/Dispatch.antt =====
-- src/ferrum.c, `dispatch`: the commands by their names.
use hurra_v.Base.{ℕ, Bool, true, false, ◌&&◌, Option, none, some}
use hurra_v.Base.{List, [], ◌∷◌, ◌==◌, if◌then◌else◌}
use hurra_v.Base.Int.{ℤ}
use hurra_v.Base.Text.{ascii}
use hurra_v.Ferrum.Commands.{
  Ferrum, Outcome, KeyOp, key_down, key_up, key_press, cmd_version, cmd_move, cmd_button, cmd_click,
  cmd_wheel, cmd_lock, cmd_catch_xy, cmd_kb, cmd_kb_multi, cmd_kb_isdown, cmd_kb_mask, cmd_init,
  toggle_buttons, toggle_axes, toggle_keys, cmd_baud,
}

-- A branch of `dispatch`, with what it gives its handler.
pub data Command : Type 0 where
  version move click wheel catch_xy isdown mask init buttons axes keys baud : Command
  button : ℕ → Command
  lock : ℕ → Command
  kb : KeyOp → Command
  kb_multi : KeyOp → Command

unfoldable pub name_is : List ℕ → List ℕ → Bool
name_is [] [] = true
name_is (c ∷ s) (d ∷ t) = (c == d) && name_is s t
name_is [] (d ∷ t) = false
name_is (c ∷ s) [] = false

-- The tests of `dispatch`, in their order.
abbrev pub names : List (List ℕ × Command)
names =
    (ascii "version", version)
    ∷ (ascii "move", move)
    ∷ (ascii "left", button 0x01)
    ∷ (ascii "right", button 0x02)
    ∷ (ascii "middle", button 0x04)
    ∷ (ascii "side1", button 0x08)
    ∷ (ascii "side2", button 0x10)
    ∷ (ascii "click", click)
    ∷ (ascii "wheel", wheel)
    ∷ (ascii "lock_ml", lock 0)
    ∷ (ascii "lock_mr", lock 1)
    ∷ (ascii "lock_mm", lock 2)
    ∷ (ascii "lock_ms1", lock 3)
    ∷ (ascii "lock_ms2", lock 4)
    ∷ (ascii "lock_mx", lock 5)
    ∷ (ascii "lock_my", lock 6)
    ∷ (ascii "catch_xy", catch_xy)
    ∷ (ascii "down", kb key_down)
    ∷ (ascii "up", kb key_up)
    ∷ (ascii "press", kb key_press)
    ∷ (ascii "multidown", kb_multi key_down)
    ∷ (ascii "multiup", kb_multi key_up)
    ∷ (ascii "multipress", kb_multi key_press)
    ∷ (ascii "isdown", isdown)
    ∷ (ascii "mask", mask)
    ∷ (ascii "init", init)
    ∷ (ascii "buttons", buttons)
    ∷ (ascii "axes", axes)
    ∷ (ascii "keys", keys)
    ∷ (ascii "baud", baud)
    ∷ []

unfoldable pub find_name : List ℕ → List (List ℕ × Command) → Option Command
find_name name [] = none
find_name name ((kw, c) ∷ cs) =
    let rest = find_name name cs in if name_is name kw then some c else rest

unfoldable pub run_command : Option (ℤ × ℤ → ℤ × ℤ) → Command → Ferrum → List (List ℕ) → ℕ → Outcome
run_command filter version f args now = cmd_version f
run_command filter move f args now = cmd_move filter f args
run_command filter click f args now = cmd_click f args now
run_command filter wheel f args now = cmd_wheel f args
run_command filter catch_xy f args now = cmd_catch_xy f args now
run_command filter isdown f args now = cmd_kb_isdown f args
run_command filter mask f args now = cmd_kb_mask f args
run_command filter init f args now = cmd_init f
run_command filter buttons f args now = toggle_buttons f args
run_command filter axes f args now = toggle_axes f args
run_command filter keys f args now = toggle_keys f args
run_command filter baud f args now = cmd_baud f args
run_command filter (button m) f args now = cmd_button f m args
run_command filter (lock bit) f args now = cmd_lock f bit args
run_command filter (kb op) f args now = cmd_kb op f args now
run_command filter (kb_multi op) f args now = cmd_kb_multi op f args now

-- A name that is not known is dropped.
unfoldable pub dispatch : Option (ℤ × ℤ → ℤ × ℤ) → Ferrum → List ℕ → List (List ℕ) → ℕ → Outcome
dispatch filter f name args now = elim (find_name name names) [
  | none ↦ (f, [])
  | some c ↦ run_command filter c f args now
]
