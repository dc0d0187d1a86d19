-- ===== src/Hurra/Dispatch/Lengths.antt =====
-- A message of a wrong length has no effect.
use hurra_v.Base.{ℕ, ◌≡◌, refl, arith, Bool, true, false, ◌&&◌, ◌||◌, Option, some}
use hurra_v.Base.{List, length, ltb, leb, ◌==◌, if◌then◌else◌}
use hurra_v.Base.Int.{ℤ}
use hurra_v.Hurra.{Hurra, Msg, Uart, Outcome, track_id, invalid}
use hurra_v.Hurra.Dispatch.{
  Listener, ping, version, stats, move, mo, click, wheel, move_dur, move_bezier, getpos, invert_x,
  invert_y, swap_xy, down, up, press, isdown, mask, string, multidown, multiup, multipress,
  catch_xy, phys_mask, init, reboot, baud, screen, cb_btn, cb_axes, cb_keys, cb_phys, button, lock,
  types, find_type, run_listener, on_frame,
}
use hurra_v.Hurra.Listeners.{
  exactly, or_read, l_ping, l_mouse_move, l_mouse_mo, l_mouse_click, l_mouse_wheel,
  l_mouse_move_dur, l_mouse_move_bezier, button_listener, invert_listener, l_kb_down, l_kb_up,
  l_kb_press, l_kb_isdown, l_kb_mask, l_kb_string, multikey_listener, lock_listener, l_catch_xy,
  l_phys_mask, l_baud, l_screen, l_cb_btn, l_cb_axes, l_cb_keys, l_cb_phys,
}

-- The lengths of the payloads of a request, as the protocol has them.
abbrev pub accepts : Listener → ℕ → Bool
accepts ping n = n == 4
accepts version n = true
accepts stats n = true
accepts move n = n == 4
accepts mo n = n == 8
accepts click n = n == 3
accepts wheel n = n == 1
accepts move_dur n = n == 6
accepts move_bezier n = n == 14
accepts getpos n = true
accepts invert_x n = leb n 1
accepts invert_y n = leb n 1
accepts swap_xy n = leb n 1
accepts down n = n == 1
accepts up n = n == 1
accepts press n = n == 3
accepts isdown n = n == 1
accepts mask n = n == 2
accepts string n = leb n 240
accepts multidown n = leb 1 n && leb n 6
accepts multiup n = leb 1 n && leb n 6
accepts multipress n = leb 1 n && leb n 6
accepts catch_xy n = n == 2
accepts phys_mask n = n == 3
accepts init n = true
accepts reboot n = true
accepts baud n = n == 0 || n == 4
accepts screen n = n == 0 || n == 4
accepts cb_btn n = leb n 1
accepts cb_axes n = leb n 1
accepts cb_keys n = leb n 1
accepts cb_phys n = leb n 1
accepts (button m) n = leb n 1
accepts (lock bit) n = leb n 1

exactly_refused :
    (n : ℕ) (h : Hurra) (msg : Msg) (go : Outcome)
    → (length msg.bytes == n) ≡ false
    → exactly n h msg go ≡ invalid h
exactly_refused n h msg go e = rw e refl

-- Neither empty nor of the length that sets the value.
or_read_refused :
    (n : ℕ) (h : Hurra) (msg : Msg) (now : List ℕ) (go : Outcome)
    → (length msg.bytes == 0) ≡ false
    → (length msg.bytes == n) ≡ false
    → or_read n h msg now go ≡ invalid h
or_read_refused n h msg now go e d = rw (e, d) refl

flag_refused :
    (h : Hurra) (msg : Msg) (now : List ℕ) (go : Outcome)
    → leb (length msg.bytes) 1 ≡ false
    → or_read 1 h msg now go ≡ invalid h
flag_refused h msg now go e = or_read_refused 1 h msg now go (ground (arith, e)) (ground (arith, e))

word_refused :
    (h : Hurra) (msg : Msg) (now : List ℕ) (go : Outcome)
    → (length msg.bytes == 0 || length msg.bytes == 4) ≡ false
    → or_read 4 h msg now go ≡ invalid h
word_refused h msg now go e = or_read_refused 4 h msg now go (ground (arith, e)) (ground (arith, e))

choose_invalid : (b : Bool) (x y : Outcome) → b ≡ true → (if b then x else y) ≡ x
choose_invalid b x y e = rw e refl

refused :
    (filter : Option (ℤ × ℤ → ℤ × ℤ)) (u : Uart) (l : Listener) (h : Hurra) (msg : Msg) (now : ℕ)
    → accepts l (length msg.bytes) ≡ false
    → run_listener filter u l h msg now ≡ invalid h
unfolding run_listener l_ping l_mouse_move l_mouse_mo l_mouse_click l_mouse_wheel l_mouse_move_dur
    l_mouse_move_bezier button_listener invert_listener l_kb_down l_kb_up l_kb_press l_kb_isdown
    l_kb_mask l_kb_string multikey_listener lock_listener l_catch_xy l_phys_mask l_baud l_screen
    l_cb_btn l_cb_axes l_cb_keys l_cb_phys
refused filter u ping h msg now e = exactly_refused 4 h msg _ e
refused filter u version h msg now e = ground (arith, e)
refused filter u stats h msg now e = ground (arith, e)
refused filter u move h msg now e = exactly_refused 4 h msg _ e
refused filter u mo h msg now e = exactly_refused 8 h msg _ e
refused filter u click h msg now e = exactly_refused 3 h msg _ e
refused filter u wheel h msg now e = exactly_refused 1 h msg _ e
refused filter u move_dur h msg now e = exactly_refused 6 h msg _ e
refused filter u move_bezier h msg now e = exactly_refused 14 h msg _ e
refused filter u getpos h msg now e = ground (arith, e)
refused filter u invert_x h msg now e = flag_refused h msg _ _ e
refused filter u invert_y h msg now e = flag_refused h msg _ _ e
refused filter u swap_xy h msg now e = flag_refused h msg _ _ e
refused filter u down h msg now e = exactly_refused 1 h msg _ e
refused filter u up h msg now e = exactly_refused 1 h msg _ e
refused filter u press h msg now e = exactly_refused 3 h msg _ e
refused filter u isdown h msg now e = exactly_refused 1 h msg _ e
refused filter u mask h msg now e = exactly_refused 2 h msg _ e
refused filter u string h msg now e =
    choose_invalid (ltb 240 (length msg.bytes)) _ _ (ground (arith, e))
refused filter u multidown h msg now e =
    choose_invalid (ltb (length msg.bytes) 1 || ltb 6 (length msg.bytes)) _ _ (ground (arith, e))
refused filter u multiup h msg now e =
    choose_invalid (ltb (length msg.bytes) 1 || ltb 6 (length msg.bytes)) _ _ (ground (arith, e))
refused filter u multipress h msg now e =
    choose_invalid (ltb (length msg.bytes) 1 || ltb 6 (length msg.bytes)) _ _ (ground (arith, e))
refused filter u catch_xy h msg now e = exactly_refused 2 h msg _ e
refused filter u phys_mask h msg now e = exactly_refused 3 h msg _ e
refused filter u init h msg now e = ground (arith, e)
refused filter u reboot h msg now e = ground (arith, e)
refused filter u baud h msg now e = word_refused h msg _ _ e
refused filter u screen h msg now e = word_refused h msg _ _ e
refused filter u cb_btn h msg now e = flag_refused h msg _ _ e
refused filter u cb_axes h msg now e = flag_refused h msg _ _ e
refused filter u cb_keys h msg now e = flag_refused h msg _ _ e
refused filter u cb_phys h msg now e = flag_refused h msg _ _ e
refused filter u (button m) h msg now e = flag_refused h msg _ _ e
refused filter u (lock bit) h msg now e = flag_refused h msg _ _ e

-- A frame of a type that has a listener, with a payload of a length that the protocol does not have for
-- it: nothing is injected, nothing is answered, and only the counters of frames and of invalid payloads,
-- and the id of the last frame, change.
pub wrong_length_refused :
    (filter : Option (ℤ × ℤ → ℤ × ℤ)) (u : Uart) (l : Listener) (h : Hurra) (msg : Msg) (now : ℕ)
    → find_type msg.kind types ≡ some l
    → accepts l (length msg.bytes) ≡ false
    → on_frame filter u h msg now ≡ invalid (track_id h msg.frame_id)
unfolding on_frame
wrong_length_refused filter u l h msg now d e =
    rw (d, on_frame) (refused filter u l (track_id h msg.frame_id) msg now e)
