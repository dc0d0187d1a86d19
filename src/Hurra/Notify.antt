-- ===== src/Hurra/Notify.antt =====
-- src/hurra.c: the telemetry.
use hurra_v.Base.{ℕ, ◌+◌, ◌%◌, ◌^◌, not, ◌&&◌}
use hurra_v.Base.{List, [], ◌∷◌, ◌++◌, length, ltb, ◌==◌, if◌then◌else◌}
use hurra_v.Base.Int.{ℤ, ◌+ℤ◌, to_word}
use hurra_v.Ferrum.Dispatch.{name_is}
use hurra_v.Hurra.{Hurra, Uart, send, Outcome, wr_i16le}

-- `TLM_TX_SLACK` is 32; without room for the frame it is skipped. The id is TinyFrame's.
unfoldable pub tlm_send : Uart → Hurra → ℕ → List ℕ → Outcome
tlm_send u h kind p =
    if ltb u.tx_room (length p + 32)
    then (
      record h { stats = record h.stats { tx_ring_skip = (h.stats.tx_ring_skip + 1) % 2 ^ 32 } },
      [],
    )
    else (h, send (record { kind = kind; frame_id = 0; bytes = p }) ∷ [])

unfoldable pub hurra_notify_buttons : Uart → Hurra → ℕ → Outcome
hurra_notify_buttons u h buttons =
    if h.cb_buttons && not (buttons == h.last_btn_emitted)
    then tlm_send u (record h { last_btn_emitted = buttons }) 0x81 (buttons ∷ [])
    else (h, [])

unfoldable pub hurra_notify_axes : Uart → Hurra → ℤ → ℤ → ℤ → Outcome
hurra_notify_axes u h dx dy scroll =
    let caught =
      if h.catch.active
      then record h {
        catch = record h.catch { accum_x = h.catch.accum_x +ℤ dx; accum_y = h.catch.accum_y +ℤ dy };
      }
      else h in
    if caught.cb_axes
    then tlm_send u caught 0x80 (wr_i16le dx ++ wr_i16le dy ++ (to_word 8 scroll ∷ []))
    else (caught, [])

unfoldable pub hurra_notify_keys : Uart → Hurra → List ℕ → Outcome
hurra_notify_keys u h keys =
    if h.cb_keys && not (name_is keys h.last_keys_emitted)
    then tlm_send u (record h { last_keys_emitted = keys }) 0x83
        (h.actions.keyboard.modifier ∷ keys)
    else (h, [])

unfoldable pub hurra_notify_phys_axes : Uart → Hurra → ℤ → ℤ → ℤ → Outcome
hurra_notify_phys_axes u h dx dy wheel =
    if h.cb_phys
    then tlm_send u h 0x86 (wr_i16le dx ++ wr_i16le dy ++ (to_word 8 wheel ∷ []))
    else (h, [])

unfoldable pub hurra_notify_phys_buttons : Uart → Hurra → ℕ → Outcome
hurra_notify_phys_buttons u h buttons =
    if h.cb_phys then tlm_send u h 0x87 (buttons ∷ []) else (h, [])

unfoldable pub hurra_notify_phys_keys : Uart → Hurra → ℕ → List ℕ → Outcome
hurra_notify_phys_keys u h modifier keys =
    if h.cb_phys then tlm_send u h 0x88 (modifier ∷ 0 ∷ keys) else (h, [])
