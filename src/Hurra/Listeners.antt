-- ===== src/Hurra/Listeners.antt =====
-- src/hurra.c: the listeners, each behind `track_id`.
use hurra_v.Base.{
  ℕ, ◌+◌, ◌-◌, ◌%◌, ◌^◌, Bool, true, not, ◌&&◌, ◌||◌, bit_and, bit_or, bit_xor, Option,
}
use hurra_v.Base.{
  List, [], ◌∷◌, ◌++◌, map, get_or, length, replicate, ltb, leb, ◌==◌, if◌then◌else◌,
}
use hurra_v.Base.Int.{ℤ, pos, of_word, to_word, clamp, is_zero}
use hurra_v.Base.Text.{ascii}
use hurra_v.Actions.Keys.{
  Snapshot, Keyboard, act_kb_down, act_kb_up, act_kb_press, act_kb_isdown, act_kb_init,
}
use hurra_v.Actions.Masks.{
  Masks, act_kb_mask, act_phys_mask_mouse, act_phys_mask_key, act_phys_unmask_all,
}
use hurra_v.Actions.Mouse.{
  Mouse, Move, act_move, act_button_set, act_click, act_wheel, act_motion_move_dur,
  act_motion_bezier,
}
use hurra_v.Actions.Pump.{act_init}
use hurra_v.Hurra.{
  Hurra, Msg, Uart, Effect, respond, moved, typed, Outcome, no_stats, rd_u16le, rd_i16le, rd_u32le,
  wr_u32le, wr_i16le, flag_byte, send_reply, invalid, rng_next,
}

abbrev pub with_mouse : Hurra → Mouse × List Move → Outcome
with_mouse h q = (record h { actions = record h.actions { mouse = q.0 } }, map moved q.1)

abbrev pub with_keys : Hurra → Keyboard × List Snapshot → Outcome
with_keys h q = (record h { actions = record h.actions { keyboard = q.0 } }, map typed q.1)

abbrev pub with_masks : Hurra → Masks → Outcome
with_masks h masks = (record h { actions = record h.actions { masks = masks } }, [])

-- A listener that wants just so many bytes.
abbrev pub exactly : ℕ → Hurra → Msg → Outcome → Outcome
exactly n h msg go = if length msg.bytes == n then go else invalid h

-- A listener that answers an empty message, and otherwise wants so many bytes.
abbrev pub or_read : ℕ → Hurra → Msg → List ℕ → Outcome → Outcome
or_read n h msg now go =
    if length msg.bytes == 0 then (h, send_reply msg now) else exactly n h msg go

unfoldable pub l_ping : Hurra → Msg → Outcome
l_ping h msg = exactly 4 h msg (h, send_reply msg msg.bytes)

unfoldable pub l_version : Hurra → Msg → Outcome
l_version h msg = (h, send_reply msg (ascii "kmbox: Hurra v1"))

unfoldable pub pack_stats : Hurra → Uart → ℕ → List ℕ
pack_stats h u now =
    let s = h.stats in
    wr_u32le now
    ++ wr_u32le s.rx_frames_ok
    ++ wr_u32le s.head_crc_err
    ++ wr_u32le s.payload_crc_err
    ++ wr_u32le s.id_gap_total
    ++ wr_u32le s.idle_resync
    ++ wr_u32le u.rx_drv_overrun
    ++ wr_u32le s.tx_ring_skip
    ++ wr_u32le s.payload_invalid

unfoldable pub l_stats : Hurra → Msg → Uart → ℕ → Outcome
l_stats h msg u now = (h, send_reply msg (pack_stats h u now))

-- The plain, the smooth and the silent move.
unfoldable pub l_mouse_move : Option (ℤ × ℤ → ℤ × ℤ) → Hurra → Msg → Outcome
l_mouse_move filter h msg =
    exactly 4 h msg
      (with_mouse h (act_move filter h.actions.mouse (rd_i16le msg.bytes 0) (rd_i16le msg.bytes 2)))

unfoldable pub l_mouse_mo : Option (ℤ × ℤ → ℤ × ℤ) → Hurra → Msg → Outcome
l_mouse_mo filter h msg =
    let m = h.actions.mouse in
    let b = get_or msg.bytes 0 0 in
    let wheel = of_word 8 (get_or msg.bytes 5 0) in
    let up = act_button_set m (bit_xor b m.buttons) 0 in
    let down = act_button_set up.0 b 1 in
    let go = act_move filter down.0 (rd_i16le msg.bytes 1) (rd_i16le msg.bytes 3) in
    exactly 8 h msg (
      with_mouse h
        (go.0, up.1 ++ down.1 ++ go.1 ++ (if is_zero wheel then [] else act_wheel go.0 wheel)))

unfoldable pub l_mouse_click : Hurra → Msg → ℕ → Outcome
l_mouse_click h msg now = exactly 3 h msg (
    with_mouse h (
      act_click h.actions.mouse (get_or msg.bytes 0 0) (get_or msg.bytes 1 0) (get_or msg.bytes 2 0)
        now))

unfoldable pub l_mouse_wheel : Hurra → Msg → Outcome
l_mouse_wheel h msg =
    exactly 1 h msg (h, map moved (act_wheel h.actions.mouse (of_word 8 (get_or msg.bytes 0 0))))

unfoldable pub l_mouse_move_dur : Option (ℤ × ℤ → ℤ × ℤ) → Hurra → Msg → ℕ → Outcome
l_mouse_move_dur filter h msg now =
    let d = msg.bytes in
    exactly 6 h msg (
      with_mouse h (
        act_motion_move_dur filter h.actions.mouse (rd_i16le d 0) (rd_i16le d 2) (rd_u16le d 4)
          now))

unfoldable pub l_mouse_move_bezier : Option (ℤ × ℤ → ℤ × ℤ) → Hurra → Msg → ℕ → Outcome
l_mouse_move_bezier filter h msg now =
    let d = msg.bytes in
    exactly 14 h msg (
      with_mouse h (
        act_motion_bezier filter h.actions.mouse (rd_i16le d 0) (rd_i16le d 2) (rd_u16le d 4)
          (rd_i16le d 6) (rd_i16le d 8) (rd_i16le d 10) (rd_i16le d 12) now))

unfoldable pub l_mouse_getpos : Hurra → Msg → Outcome
l_mouse_getpos h msg = (
  h,
  send_reply msg (
      wr_i16le (clamp 0x7fff h.actions.mouse.pos_x)
      ++ wr_i16le (clamp 0x7fff h.actions.mouse.pos_y)),
)

unfoldable pub button_listener : Hurra → Msg → ℕ → Outcome
button_listener h msg mask =
    let m = h.actions.mouse in
    let q = act_button_set m mask (if get_or msg.bytes 0 0 == 0 then 0 else 1) in
    or_read 1 h msg (flag_byte (not (bit_and m.buttons mask == 0)) ∷ []) (with_mouse h (q.0, q.1))

-- One of the three switches: what it is, and how it is set.
unfoldable pub invert_listener : Hurra → Msg → Bool → (Bool → Mouse) → Outcome
invert_listener h msg get set =
    or_read 1 h msg (flag_byte get ∷ []) (with_mouse h (set (not (get_or msg.bytes 0 0 == 0)), []))

unfoldable pub l_kb_down : Hurra → Msg → Outcome
l_kb_down h msg =
    let q = act_kb_down h.actions.keyboard (get_or msg.bytes 0 0) in
    exactly 1 h msg (with_keys h (q.0, q.1))

unfoldable pub l_kb_up : Hurra → Msg → Outcome
l_kb_up h msg = exactly 1 h msg (with_keys h (act_kb_up h.actions.keyboard (get_or msg.bytes 0 0)))

-- A jitter is drawn only where one is asked for.
unfoldable pub l_kb_press : Hurra → Msg → ℕ → Outcome
l_kb_press h msg now =
    let range = get_or msg.bytes 2 0 in
    let drawn = rng_next h.rng_state in
    let delay = get_or msg.bytes 1 0 + (if range == 0 then 0 else drawn % (range + 1)) in
    exactly 3 h msg (
      with_keys (record h { rng_state = if range == 0 then h.rng_state else drawn })
        (act_kb_press h.actions.keyboard (get_or msg.bytes 0 0) delay now))

unfoldable pub l_kb_isdown : Hurra → Msg → Outcome
l_kb_isdown h msg =
    exactly 1 h msg
      (h, send_reply msg (flag_byte (act_kb_isdown h.actions.keyboard (get_or msg.bytes 0 0)) ∷ []))

unfoldable pub l_kb_mask : Hurra → Msg → Outcome
l_kb_mask h msg =
    exactly 2 h msg
      (with_masks h (act_kb_mask h.actions.masks (get_or msg.bytes 0 0) (get_or msg.bytes 1 0)))

unfoldable pub ascii_to_hid : ℕ → ℕ
ascii_to_hid c =
    if leb b'a' c && leb c b'z'
    then 0x04 + (c - b'a')
    else if leb b'A' c && leb c b'Z'
    then 0x04 + (c - b'A')
    else if leb b'1' c && leb c b'9'
    then 0x1e + (c - b'1')
    else if c == b'0'
    then 0x27
    else if c == b' '
    then 0x2c
    else 0

-- The loop of `l_kb_string`.
unfoldable pub type_string : Keyboard → List ℕ → ℕ → Keyboard × List Snapshot
type_string kb [] now = (kb, [])
type_string kb (c ∷ s) now =
    let hid = ascii_to_hid c in
    let (pressed, out) = act_kb_press kb hid 12 now in
    let step = if hid == 0 then kb else pressed in
    let (after, rest) = type_string step s now in (after, (if hid == 0 then [] else out) ++ rest)

unfoldable pub l_kb_string : Hurra → Msg → ℕ → Outcome
l_kb_string h msg now =
    if ltb 240 (length msg.bytes)
    then invalid h
    else with_keys h (type_string h.actions.keyboard msg.bytes now)

-- The loop of `multikey_listener`.
unfoldable pub each_key :
    (Keyboard → ℕ → Keyboard × List Snapshot) → Keyboard → List ℕ → Keyboard × List Snapshot
each_key op kb [] = (kb, [])
each_key op kb (k ∷ ks) =
    let (kb1, out) = op kb k in let (kb2, rest) = each_key op kb1 ks in (kb2, out ++ rest)

unfoldable pub multikey_listener : Hurra → Msg → (Keyboard → ℕ → Keyboard × List Snapshot) → Outcome
multikey_listener h msg op =
    if ltb (length msg.bytes) 1 || ltb 6 (length msg.bytes)
    then invalid h
    else with_keys h (each_key op h.actions.keyboard msg.bytes)

unfoldable pub lock_listener : Hurra → Msg → ℕ → Outcome
lock_listener h msg bit =
    let mask = 2 ^ bit in
    let locks = h.actions.lock_mask in
    or_read 1 h msg (flag_byte (not (bit_and locks mask == 0)) ∷ []) (
      record h {
        actions = record h.actions {
          lock_mask =
              if get_or msg.bytes 0 0 == 0
              then bit_and locks (0xffff - mask)
              else bit_or locks mask;
        };
      },
      [],
    )

-- `TYPE_CATCH_XY`, to the request that asked.
unfoldable pub catch_reply : Hurra → Effect
catch_reply h = respond (record {
  kind = 0x67;
  frame_id = h.catch.reply_id;
  bytes = wr_u32le (to_word 32 h.catch.accum_x) ++ wr_u32le (to_word 32 h.catch.accum_y);
})

unfoldable pub l_catch_xy : Hurra → Msg → ℕ → Outcome
l_catch_xy h msg now =
    let asked = rd_u16le msg.bytes 0 in
    let dur = if ltb 1000 asked then 1000 else asked in
    exactly 2 h msg (
      record h {
        catch = record {
          active = true;
          deadline = (now + dur) % 2 ^ 32;
          accum_x = pos 0;
          accum_y = pos 0;
          reply_id = msg.frame_id;
        };
      },
      if h.catch.active then catch_reply h ∷ [] else [],
    )

unfoldable pub l_phys_mask : Hurra → Msg → Outcome
l_phys_mask h msg =
    let domain = get_or msg.bytes 0 0 in
    let code = get_or msg.bytes 1 0 in
    let enable = not (get_or msg.bytes 2 0 == 0) in
    let masks = h.actions.masks in
    exactly 3 h msg (
      if domain == 0xff
      then with_masks h (act_phys_unmask_all masks)
      else if domain == 0
      then with_masks h (act_phys_mask_mouse masks code enable)
      else if domain == 1
      then with_masks h (act_phys_mask_key masks code enable)
      else invalid h)

unfoldable pub l_init : Hurra → Msg → Outcome
l_init h msg =
    let cleared = act_init h.actions in
    with_keys (record h { actions = cleared; stats = no_stats }) (act_kb_init cleared.keyboard)

unfoldable pub l_reboot : Hurra → Msg → ℕ → Outcome
l_reboot h msg now =
    (record h { reboot_at = (now + 20) % 2 ^ 32; reboot_scheduled = true }, send_reply msg (0 ∷ []))

unfoldable pub l_baud : Hurra → Msg → Uart → ℕ → Outcome
l_baud h msg u now =
    let new_baud = rd_u32le msg.bytes 0 in
    or_read 4 h msg (wr_u32le u.current_baud) (
      record h {
        baud_pending = new_baud;
        baud_apply_at = (now + 20) % 2 ^ 32;
        baud_scheduled = true;
      },
      send_reply msg (wr_u32le new_baud),
    )

unfoldable pub l_screen : Hurra → Msg → Outcome
l_screen h msg =
    or_read 4 h msg (wr_i16le h.screen_w ++ wr_i16le h.screen_h)
      (record h { screen_w = rd_i16le msg.bytes 0; screen_h = rd_i16le msg.bytes 2 }, [])

abbrev pub is_set : Msg → Bool
is_set msg = not (get_or msg.bytes 0 0 == 0)

-- `cb_toggle_listener` for the four flags.
unfoldable pub l_cb_btn : Hurra → Msg → Outcome
l_cb_btn h msg =
    or_read 1 h msg (flag_byte h.cb_buttons ∷ [])
      (record h { cb_buttons = is_set msg; last_btn_emitted = 0xff }, [])

unfoldable pub l_cb_axes : Hurra → Msg → Outcome
l_cb_axes h msg = or_read 1 h msg (flag_byte h.cb_axes ∷ []) (record h { cb_axes = is_set msg }, [])

unfoldable pub l_cb_keys : Hurra → Msg → Outcome
l_cb_keys h msg =
    or_read 1 h msg (flag_byte h.cb_keys ∷ [])
      (record h { cb_keys = is_set msg; last_keys_emitted = replicate 6 0xff }, [])

unfoldable pub l_cb_phys : Hurra → Msg → Outcome
l_cb_phys h msg = or_read 1 h msg (flag_byte h.cb_phys ∷ []) (record h { cb_phys = is_set msg }, [])
