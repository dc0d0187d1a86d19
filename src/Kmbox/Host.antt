-- ===== src/Kmbox/Host.antt =====
-- src/kmbox_cmd_host.c: the host board packs a call into a record for the board link.
use hurra_v.Base.{ℕ, List, [], ◌∷◌, take, replicate, length, ◌≡◌, refl, ap, arith}
use hurra_v.Base.Int.{ℤ, to_word}
use hurra_v.Inject.Ring.{Link, push}
use hurra_v.Kmbox.{tag_mouse, tag_keyboard, tag_click_release, tag_kb_release, byte}
use hurra_v.Kmbox.V3f.{
  Call, inject_mouse, inject_keyboard, schedule_click_release, schedule_kb_release, record_of,
  mouse_record, keyboard_record, release_record,
}

pub kmbox_cmd_inject_mouse : Link → ℤ → ℤ → ℕ → ℤ → Link
kmbox_cmd_inject_mouse l dx dy buttons wheel =
    (push l tag_mouse (
      byte 0 (to_word 16 dx)
      ∷ byte 1 (to_word 16 dx)
      ∷ byte 0 (to_word 16 dy)
      ∷ byte 1 (to_word 16 dy)
      ∷ buttons
      ∷ to_word 8 wheel
      ∷ replicate 1 0)).0

-- `memcpy` of the six keys.
pub kmbox_cmd_inject_keyboard : Link → ℕ → List ℕ → Link
kmbox_cmd_inject_keyboard l modifier keys = (push l tag_keyboard (modifier ∷ take 6 keys)).0

-- The seven bytes of a scheduled release.
abbrev pub release_bytes : ℕ → ℕ → List ℕ
release_bytes what delay_ms =
    what ∷ byte 0 delay_ms ∷ byte 1 delay_ms ∷ byte 2 delay_ms ∷ byte 3 delay_ms ∷ replicate 2 0

pub kmbox_cmd_schedule_click_release : Link → ℕ → ℕ → Link
kmbox_cmd_schedule_click_release l button_mask delay_ms =
    (push l tag_click_release (release_bytes button_mask delay_ms)).0

pub kmbox_cmd_schedule_kb_release : Link → ℕ → ℕ → Link
kmbox_cmd_schedule_kb_release l key delay_ms =
    (push l tag_kb_release (release_bytes key delay_ms)).0

pub call : Link → Call → Link
call l (inject_mouse dx dy buttons wheel) = kmbox_cmd_inject_mouse l dx dy buttons wheel
call l (inject_keyboard modifier keys) = kmbox_cmd_inject_keyboard l modifier keys
call l (schedule_click_release button_mask delay_ms) =
    kmbox_cmd_schedule_click_release l button_mask delay_ms
call l (schedule_kb_release key delay_ms) = kmbox_cmd_schedule_kb_release l key delay_ms

-- A keyboard call has an array of six keys.
abbrev pub IsCall : Call → Type 0
IsCall (inject_mouse dx dy buttons wheel) = Unit {0}
IsCall (inject_keyboard modifier keys) = length keys ≡ 6
IsCall (schedule_click_release button_mask delay_ms) = Unit {0}
IsCall (schedule_kb_release key delay_ms) = Unit {0}

six :
    (keys : List ℕ)
    → length keys ≡ 6
    → (modifier : ℕ) → modifier ∷ take 6 keys ≡ take 7 (keyboard_record modifier keys).b
unfolding keyboard_record
six [] h modifier = absurd (omega arith)
six (a ∷ []) h modifier = absurd (omega arith)
six (a ∷ b ∷ []) h modifier = absurd (omega arith)
six (a ∷ b ∷ c ∷ []) h modifier = absurd (omega arith)
six (a ∷ b ∷ c ∷ d ∷ []) h modifier = absurd (omega arith)
six (a ∷ b ∷ c ∷ d ∷ e ∷ []) h modifier = absurd (omega arith)
six (a ∷ b ∷ c ∷ d ∷ e ∷ f ∷ []) h modifier = refl
six (a ∷ b ∷ c ∷ d ∷ e ∷ f ∷ g ∷ ks) h modifier = absurd (omega arith)

-- Each call pushes the tag and the first seven bytes of the command core's record.
pub call-push :
    (l : Link) (c : Call)
    → IsCall c
    → call l c ≡ (push l (record_of c).tag (take 7 (record_of c).b)).0
unfolding call record_of mouse_record keyboard_record release_record kmbox_cmd_inject_mouse
    kmbox_cmd_inject_keyboard kmbox_cmd_schedule_click_release kmbox_cmd_schedule_kb_release
call-push l (inject_mouse dx dy buttons wheel) h = refl
call-push l (inject_keyboard modifier keys) h =
    ap (λ (b : List ℕ). (push l tag_keyboard b).0) (six keys h modifier)
call-push l (schedule_click_release button_mask delay_ms) h = refl
call-push l (schedule_kb_release key delay_ms) h = refl
