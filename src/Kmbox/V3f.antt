-- ===== src/Kmbox/V3f.antt =====
-- src/kmbox_cmd.c: the command core packs a call into a record for the other core.
use hurra_v.Base.{ℕ, ◌+◌, ◌%◌, ◌^◌, List, ◌∷◌, get_or, replicate, ◌≡◌, refl}
use hurra_v.Base.Int.{ℤ, to_word}
use hurra_v.Icc.Ring.{Rec}
use hurra_v.Icc.Mailbox.{Channel, send}
use hurra_v.Kmbox.{tag_mouse, tag_keyboard, tag_click_release, tag_kb_release, byte}

-- The channel, with `s_inj_mouse_count` and `s_inj_kbd_count`.
pub record V3f : Type 0 where
  pub channel : Channel
  pub mouse_count : ℕ
  pub kbd_count : ℕ

unfoldable pub mouse_record : ℤ → ℤ → ℕ → ℤ → Rec
mouse_record dx dy buttons wheel = record {
  tag = tag_mouse;
  b =
      byte 0 (to_word 16 dx)
      ∷ byte 1 (to_word 16 dx)
      ∷ byte 0 (to_word 16 dy)
      ∷ byte 1 (to_word 16 dy)
      ∷ buttons
      ∷ to_word 8 wheel
      ∷ replicate 9 0;
}

unfoldable pub keyboard_record : ℕ → List ℕ → Rec
keyboard_record modifier keys = record {
  tag = tag_keyboard;
  b =
      modifier
      ∷ get_or keys 0 0
      ∷ get_or keys 1 0
      ∷ get_or keys 2 0
      ∷ get_or keys 3 0
      ∷ get_or keys 4 0
      ∷ get_or keys 5 0
      ∷ replicate 8 0;
}

unfoldable pub release_record : ℕ → ℕ → ℕ → Rec
release_record tag what delay_ms = record {
  tag = tag;
  b = what ∷ byte 0 delay_ms ∷ byte 1 delay_ms ∷ byte 2 delay_ms ∷ byte 3 delay_ms ∷ replicate 10 0;
}

pub kmbox_cmd_inject_mouse : V3f → ℤ → ℤ → ℕ → ℤ → V3f
kmbox_cmd_inject_mouse v dx dy buttons wheel = record v {
  channel = (send v.channel (mouse_record dx dy buttons wheel)).0;
  mouse_count = (v.mouse_count + 1) % 2 ^ 32;
}

pub kmbox_cmd_inject_keyboard : V3f → ℕ → List ℕ → V3f
kmbox_cmd_inject_keyboard v modifier keys = record v {
  channel = (send v.channel (keyboard_record modifier keys)).0;
  kbd_count = (v.kbd_count + 1) % 2 ^ 32;
}

pub kmbox_cmd_schedule_click_release : V3f → ℕ → ℕ → V3f
kmbox_cmd_schedule_click_release v button_mask delay_ms = record v {
  channel = (send v.channel (release_record tag_click_release button_mask delay_ms)).0;
}

pub kmbox_cmd_schedule_kb_release : V3f → ℕ → ℕ → V3f
kmbox_cmd_schedule_kb_release v key delay_ms = record v {
  channel = (send v.channel (release_record tag_kb_release key delay_ms)).0;
}

-- A call of one of these.
pub data Call : Type 0 where
  inject_mouse : ℤ → ℤ → ℕ → ℤ → Call
  inject_keyboard : ℕ → List ℕ → Call
  schedule_click_release : ℕ → ℕ → Call
  schedule_kb_release : ℕ → ℕ → Call

unfoldable pub record_of : Call → Rec
record_of (inject_mouse dx dy buttons wheel) = mouse_record dx dy buttons wheel
record_of (inject_keyboard modifier keys) = keyboard_record modifier keys
record_of (schedule_click_release button_mask delay_ms) =
    release_record tag_click_release button_mask delay_ms
record_of (schedule_kb_release key delay_ms) = release_record tag_kb_release key delay_ms

pub call : V3f → Call → V3f
call v (inject_mouse dx dy buttons wheel) = kmbox_cmd_inject_mouse v dx dy buttons wheel
call v (inject_keyboard modifier keys) = kmbox_cmd_inject_keyboard v modifier keys
call v (schedule_click_release button_mask delay_ms) =
    kmbox_cmd_schedule_click_release v button_mask delay_ms
call v (schedule_kb_release key delay_ms) = kmbox_cmd_schedule_kb_release v key delay_ms

-- Each call sends its record.
pub call-send : (v : V3f) (c : Call) → (call v c).channel ≡ (send v.channel (record_of c)).0
unfolding call record_of kmbox_cmd_inject_mouse kmbox_cmd_inject_keyboard
    kmbox_cmd_schedule_click_release kmbox_cmd_schedule_kb_release
call-send v (inject_mouse dx dy buttons wheel) = refl
call-send v (inject_keyboard modifier keys) = refl
call-send v (schedule_click_release button_mask delay_ms) = refl
call-send v (schedule_kb_release key delay_ms) = refl
