-- ===== src/Hurra/Dispatch.antt =====
-- src/hurra.c: the listeners by the types that `hurra_init` registers them for, and `hurra_tick`.
pub mod Lengths
pub mod Moves
use hurra_v.Base.{ℕ, ◌+◌, Bool, true, false, not, ◌&&◌, Option, none, some}
use hurra_v.Base.{List, [], ◌∷◌, ◌++◌, ◌==◌, if◌then◌else◌}
use hurra_v.Base.Int.{ℤ}
use hurra_v.Timing.{time_deadline_reached}
use hurra_v.Actions.Keys.{Keyboard, Snapshot, act_kb_down, act_kb_up, act_kb_press}
use hurra_v.Actions.Pump.{act_set_invert_x, act_set_invert_y, act_set_swap_xy}
use hurra_v.Hurra.{Hurra, Msg, Uart, Effect, set_baud, reset, Outcome, track_id}
use hurra_v.Hurra.Listeners.{
  l_ping, l_version, l_stats, l_mouse_move, l_mouse_mo, l_mouse_click, l_mouse_wheel,
  l_mouse_move_dur, l_mouse_move_bezier, l_mouse_getpos, button_listener, invert_listener,
  l_kb_down, l_kb_up, l_kb_press, l_kb_isdown, l_kb_mask, l_kb_string, multikey_listener,
  lock_listener, catch_reply, l_catch_xy, l_phys_mask, l_init, l_reboot, l_baud, l_screen, l_cb_btn,
  l_cb_axes, l_cb_keys, l_cb_phys,
}

-- A listener, with what it is given.
pub data Listener : Type 0 where
  ping version stats move mo click wheel move_dur move_bezier getpos : Listener
  invert_x invert_y swap_xy down up press isdown mask string : Listener
  multidown multiup multipress catch_xy phys_mask init reboot baud screen : Listener
  cb_btn cb_axes cb_keys cb_phys : Listener
  button : ℕ → Listener
  lock : ℕ → Listener

-- The types of the plain, the smooth and the silent move have the same listener here.
abbrev pub types : List (ℕ × Listener)
types =
    (0x00, ping)
    ∷ (0x01, version)
    ∷ (0x02, stats)
    ∷ (0x10, move)
    ∷ (0x11, move)
    ∷ (0x12, move)
    ∷ (0x13, mo)
    ∷ (0x14, click)
    ∷ (0x15, wheel)
    ∷ (0x1b, move_dur)
    ∷ (0x1c, move_bezier)
    ∷ (0x16, getpos)
    ∷ (0x20, button 0x01)
    ∷ (0x21, button 0x02)
    ∷ (0x22, button 0x04)
    ∷ (0x23, button 0x08)
    ∷ (0x24, button 0x10)
    ∷ (0x17, invert_x)
    ∷ (0x18, invert_y)
    ∷ (0x19, swap_xy)
    ∷ (0x40, down)
    ∷ (0x41, up)
    ∷ (0x42, press)
    ∷ (0x43, isdown)
    ∷ (0x44, mask)
    ∷ (0x45, string)
    ∷ (0x46, multidown)
    ∷ (0x47, multiup)
    ∷ (0x48, multipress)
    ∷ (0x60, lock 0)
    ∷ (0x61, lock 1)
    ∷ (0x62, lock 2)
    ∷ (0x63, lock 3)
    ∷ (0x64, lock 4)
    ∷ (0x65, lock 5)
    ∷ (0x66, lock 6)
    ∷ (0x67, catch_xy)
    ∷ (0x68, phys_mask)
    ∷ (0x03, init)
    ∷ (0x04, reboot)
    ∷ (0x05, baud)
    ∷ (0x06, screen)
    ∷ (0x74, cb_btn)
    ∷ (0x75, cb_axes)
    ∷ (0x76, cb_keys)
    ∷ (0x77, cb_phys)
    ∷ []

unfoldable pub find_type : ℕ → List (ℕ × Listener) → Option Listener
find_type kind [] = none
find_type kind ((t, l) ∷ ls) = let rest = find_type kind ls in if kind == t then some l else rest

abbrev pub kb_down_void : Keyboard → ℕ → Keyboard × List Snapshot
kb_down_void kb k = let q = act_kb_down kb k in (q.0, q.1)

unfoldable pub run_listener : Option (ℤ × ℤ → ℤ × ℤ) → Uart → Listener → Hurra → Msg → ℕ → Outcome
run_listener filter u ping h msg now = l_ping h msg
run_listener filter u version h msg now = l_version h msg
run_listener filter u stats h msg now = l_stats h msg u now
run_listener filter u move h msg now = l_mouse_move filter h msg
run_listener filter u mo h msg now = l_mouse_mo filter h msg
run_listener filter u click h msg now = l_mouse_click h msg now
run_listener filter u wheel h msg now = l_mouse_wheel h msg
run_listener filter u move_dur h msg now = l_mouse_move_dur filter h msg now
run_listener filter u move_bezier h msg now = l_mouse_move_bezier filter h msg now
run_listener filter u getpos h msg now = l_mouse_getpos h msg
run_listener filter u invert_x h msg now =
    invert_listener h msg h.actions.mouse.invert_x (act_set_invert_x h.actions.mouse)
run_listener filter u invert_y h msg now =
    invert_listener h msg h.actions.mouse.invert_y (act_set_invert_y h.actions.mouse)
run_listener filter u swap_xy h msg now =
    invert_listener h msg h.actions.mouse.swap_xy (act_set_swap_xy h.actions.mouse)
run_listener filter u down h msg now = l_kb_down h msg
run_listener filter u up h msg now = l_kb_up h msg
run_listener filter u press h msg now = l_kb_press h msg now
run_listener filter u isdown h msg now = l_kb_isdown h msg
run_listener filter u mask h msg now = l_kb_mask h msg
run_listener filter u string h msg now = l_kb_string h msg now
run_listener filter u multidown h msg now = multikey_listener h msg kb_down_void
run_listener filter u multiup h msg now = multikey_listener h msg act_kb_up
run_listener filter u multipress h msg now =
    multikey_listener h msg (λ kb k. act_kb_press kb k 80 now)
run_listener filter u catch_xy h msg now = l_catch_xy h msg now
run_listener filter u phys_mask h msg now = l_phys_mask h msg
run_listener filter u init h msg now = l_init h msg
run_listener filter u reboot h msg now = l_reboot h msg now
run_listener filter u baud h msg now = l_baud h msg u now
run_listener filter u screen h msg now = l_screen h msg
run_listener filter u cb_btn h msg now = l_cb_btn h msg
run_listener filter u cb_axes h msg now = l_cb_axes h msg
run_listener filter u cb_keys h msg now = l_cb_keys h msg
run_listener filter u cb_phys h msg now = l_cb_phys h msg
run_listener filter u (button m) h msg now = button_listener h msg m
run_listener filter u (lock bit) h msg now = lock_listener h msg bit

-- A frame of TinyFrame goes to the listener of its type, if there is one.
unfoldable pub on_frame : Option (ℤ × ℤ → ℤ × ℤ) → Uart → Hurra → Msg → ℕ → Outcome
on_frame filter u h msg now = elim (find_type msg.kind types) [
  | none ↦ (h, [])
  | some l ↦ run_listener filter u l (track_id h msg.frame_id) msg now
]

unfoldable pub end_catch : Hurra → ℕ → Outcome
end_catch h now =
    if h.catch.active && time_deadline_reached now h.catch.deadline
    then (record h { catch = record h.catch { active = false } }, catch_reply h ∷ [])
    else (h, [])

unfoldable pub apply_baud : Hurra → ℕ → Outcome
apply_baud h now =
    if h.baud_scheduled && time_deadline_reached now h.baud_apply_at
    then (record h { baud_apply_at = 0; baud_scheduled = false }, set_baud h.baud_pending ∷ [])
    else (h, [])

unfoldable pub apply_reboot : Hurra → ℕ → Outcome
apply_reboot h now =
    if h.reboot_scheduled && time_deadline_reached now h.reboot_at
    then (record h { reboot_scheduled = false }, reset ∷ [])
    else (h, [])

-- But for the clock of TinyFrame.
unfoldable pub hurra_tick : Hurra → ℕ → Outcome
hurra_tick h now =
    let (h1, answer) = end_catch h now in
    let (h2, rate) = apply_baud h1 now in
    let (h3, restart) = apply_reboot h2 now in (h3, answer ++ rate ++ restart)
