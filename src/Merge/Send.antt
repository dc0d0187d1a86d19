-- ===== src/Merge/Send.antt =====
-- src/usb_merge.c: a report goes to the PC, with what was injected, or injected input on its own.
pub mod Atomic
use hurra_v.Base.{ℕ, ◌+◌, ◌-◌, ◌%◌, ◌^◌, min, Bool, true, false, not, ◌&&◌, ◌||◌}
use hurra_v.Base.{List, [], ◌∷◌, ◌++◌, get_or, set, replicate, ltb, leb, ◌==◌, if◌then◌else◌}
use hurra_v.Base.Int.{ℤ, pos, limit, is_zero}
use hurra_v.Actions.Masks.{act_phys_kb_mask_active}
use hurra_v.Humanize.{Humanize, humanize_pending}
use hurra_v.Hid.Field.{write_report_field}
use hurra_v.Merge.{Inject, Merge}
use hurra_v.Merge.Report.{usb_merge_take_injection, usb_merge_phys_mouse, merge_mouse}
use hurra_v.Merge.Report.Keyboard.{usb_merge_keyboard, usb_merge_phys_keyboard}

-- What the merge uses of the USB device stack, over a state of it: `usb_device_in_ep_free`, and
-- `usb_device_send_report`, which may refuse.
pub record UsbDevice (D : Type 0) : Type 0 where
  pub in_ep_free : D → ℕ → Bool
  pub send_report : D → ℕ → List ℕ → ℕ → D × Bool

-- The new state, and the report as it is sent. `now` is what `millis` returns.
unfoldable pub usb_merge_report : ℕ → Merge → List ℕ → ℕ → ℕ → Merge × List ℕ
usb_merge_report iface_protocol m report len now =
    let seen : Merge = record m {
      last_merge_ms = now;
      report_len = if m.report_len == 0 then len else m.report_len;
    } in
    let own =
      if not (m.masks.mouse == 0) && m.layout.valid
      then usb_merge_phys_mouse m report len
      else report in
    let mouse = merge_mouse seen own len in
    let typed =
      if act_phys_kb_mask_active m.masks && leb 8 len
      then usb_merge_phys_keyboard m.masks report
      else report in
    if iface_protocol == 2
    then (record mouse.0 { merged_this_cycle = true }, mouse.1)
    else if (iface_protocol == 1) && m.inject.kb_dirty
    then (record m { merged_this_cycle = true }, usb_merge_keyboard m.inject typed len)
    else (m, if iface_protocol == 1 then typed else report)

-- `mouse_tx_checkpoint_t`
pub record MouseTxCheckpoint : Type 0 where
  pub mouse_dx : ℤ
  pub mouse_dy : ℤ
  pub mouse_wheel : ℤ
  pub mouse_dirty : Bool
  pub humanizer : Humanize

unfoldable pub mouse_tx_checkpoint_save : Merge → MouseTxCheckpoint
mouse_tx_checkpoint_save m = record {
  mouse_dx = m.inject.mouse_dx;
  mouse_dy = m.inject.mouse_dy;
  mouse_wheel = m.inject.mouse_wheel;
  mouse_dirty = m.inject.mouse_dirty;
  humanizer = m.humanizer;
}

unfoldable pub mouse_tx_checkpoint_restore : Merge → MouseTxCheckpoint → Merge
mouse_tx_checkpoint_restore m checkpoint = record m {
  inject = record m.inject {
    mouse_dx = checkpoint.mouse_dx;
    mouse_dy = checkpoint.mouse_dy;
    mouse_wheel = checkpoint.mouse_wheel;
    mouse_dirty = checkpoint.mouse_dirty;
  };
  humanizer = checkpoint.humanizer;
}

-- The length of a report of the merge's own.
unfoldable pub own_len : Merge → ℕ
own_len m =
    min
      (if m.report_len == 0
        then (if ltb m.mouse_maxpkt 16 then m.mouse_maxpkt % 256 else 16)
        else m.report_len)
      64

-- A cleared report with its id, where the layout has one.
unfoldable pub blank_report : ℕ → ℕ → List ℕ
blank_report doff id = set (replicate 64 0) 0 (if doff == 0 then 0 else id)

-- The report of the standalone path, for the motion of this frame.
unfoldable pub synth_report : Merge → ℤ → ℤ → List ℕ
synth_report m inj_dx inj_dy =
    let l = m.layout in
    let pressed = set (blank_report l.data_off l.report_id) l.data_off m.inject.mouse_buttons in
    let with_x = write_report_field pressed 64 l.x_bit l.x_size l.data_off (limit l.x_max inj_dx) in
    let with_y = write_report_field with_x 64 l.y_bit l.y_size l.data_off (limit l.y_max inj_dy) in
    if not (l.wheel_bit == 0xffff)
      && not (is_zero m.inject.mouse_wheel)
      && (l.wheel_report_id == l.report_id)
    then write_report_field with_y 64 l.wheel_bit l.wheel_size l.data_off
        (limit l.w_max m.inject.mouse_wheel)
    else with_y

unfoldable pub is_typing : Inject → Bool
is_typing i = not (i.kb_modifier == 0) || any_key i.kb_keys
  where
    any_key : List ℕ → Bool
    any_key [] = false
    any_key (k ∷ ks) = not (k == 0) || any_key ks

module _ {D : Type 0} (usb : UsbDevice D) where
  unfoldable pub usb_merge_forward_report : Merge → D → ℕ → ℕ → List ℕ → ℕ → ℕ → Merge × D × Bool
  usb_merge_forward_report m d dev_ep iface_protocol report len now =
      let checkpointed = (iface_protocol == 2) && m.inject.mouse_dirty in
      let checkpoint = mouse_tx_checkpoint_save m in
      let (merged, out) = usb_merge_report iface_protocol m report len now in
      let (after, accepted) = usb.send_report d dev_ep out len in
      let back = if checkpointed then mouse_tx_checkpoint_restore merged checkpoint else merged in
      if not (usb.in_ep_free d dev_ep)
      then (m, d, false)
      else if accepted
      then (merged, after, true)
      else (
        record back { merged_this_cycle = m.merged_this_cycle; last_merge_ms = m.last_merge_ms },
        after,
        false,
      )

  -- A scroll on a report id of its own; true where the report was taken.
  unfoldable pub usb_merge_send_wheel_report : Merge → D → Merge × D × Bool
  usb_merge_send_wheel_report m d =
      let l = m.layout in
      let report =
        write_report_field (blank_report l.data_off l.wheel_report_id) 64 l.wheel_bit l.wheel_size
          l.data_off (limit l.w_max m.inject.mouse_wheel) in
      let (after, accepted) = usb.send_report d m.mouse_ep report (own_len m) in
      if accepted
      then (
        record m {
          inject = record m.inject {
            mouse_wheel = pos 0;
            mouse_dirty =
                not (m.inject.mouse_buttons == 0)
                || not (is_zero m.inject.mouse_dx)
                || not (is_zero m.inject.mouse_dy)
                || humanize_pending m.humanizer;
          };
        },
        after,
        true,
      )
      else (m, after, false)

  unfoldable pub usb_merge_send_keyboard_report : Merge → D → Merge × D × Bool
  usb_merge_send_keyboard_report m d =
      let (after, accepted) =
        usb.send_report d m.kb_ep (m.inject.kb_modifier ∷ 0 ∷ m.inject.kb_keys) 8 in
      if accepted
      then (record m { inject = record m.inject { kb_dirty = is_typing m.inject } }, after, true)
      else (m, after, false)

  -- The standalone mouse report.
  unfoldable pub send_mouse : Merge → D → Merge × D
  send_mouse m d =
      let checkpoint = mouse_tx_checkpoint_save m in
      let (taken, inj_dx, inj_dy) = usb_merge_take_injection m in
      let (after, accepted) =
        usb.send_report d m.mouse_ep (synth_report m inj_dx inj_dy) (own_len m) in
      if accepted
      then (
        record taken {
          inject = record taken.inject {
            mouse_wheel = pos 0;
            mouse_dirty = not (m.inject.mouse_buttons == 0) || humanize_pending taken.humanizer;
          };
        },
        after,
      )
      else (mouse_tx_checkpoint_restore taken checkpoint, after)

  -- The mouse has sent no report for two milliseconds, and the endpoint is free.
  unfoldable pub may_send : Merge → D → ℕ → Bool
  may_send m d now =
      m.inject.mouse_dirty
      && leb 2 ((now + 2 ^ 32 - m.last_merge_ms) % 2 ^ 32)
      && not (m.mouse_ep == 0)
      && m.layout.valid
      && usb.in_ep_free d m.mouse_ep

  unfoldable pub usb_merge_send_pending : Merge → D → ℕ → Merge × D
  usb_merge_send_pending m d now =
      let scrolled = usb_merge_send_wheel_report m d in
      let (flushed, d1) =
        if not (is_zero m.inject.mouse_wheel)
          && not (m.mouse_ep == 0)
          && m.layout.valid
          && not (m.layout.wheel_bit == 0xffff)
          && not (m.layout.wheel_report_id == m.layout.report_id)
        then (scrolled.0, scrolled.1)
        else (m, d) in
      let (moved, d2) = if may_send flushed d1 now then send_mouse flushed d1 else (flushed, d1) in
      let typed = usb_merge_send_keyboard_report moved d2 in
      if flushed.merged_this_cycle
      then (flushed, d1)
      else if moved.inject.kb_dirty && not (moved.kb_ep == 0)
      then (typed.0, typed.1)
      else (moved, d2)
