-- ===== src/Merge/Accum/Decode.antt =====
-- src/usb_merge.c and src/kmbox_cmd.c: a record does what the call that made it says.
use hurra_v.Base.{
  ℕ, ◌*◌, ◌%◌, ◌^◌, ◌<◌, ◌≡◌, refl, ap, ◌∙◌, arith, true, false, bit_or, bit_or_low_high,
}
use hurra_v.Base.{List, [], ◌∷◌, get_or, length, take}
use hurra_v.Base.Int.{ℤ, pos, negsuc, of_word, to_word}
use hurra_v.Hid.Field.Whole.{Fits}
use hurra_v.Kmbox.{byte}
use hurra_v.Kmbox.V3f.{
  Call, inject_mouse, inject_keyboard, schedule_click_release, schedule_kb_release, record_of,
  mouse_record, keyboard_record, release_record,
}
use hurra_v.Merge.{Inject, Merge}
use hurra_v.Merge.Accum.{
  merge_apply_mouse, merge_apply_keyboard, merge_schedule_click_release, merge_schedule_kb_release,
  usb_merge_apply_record,
}

-- What a call asks for: the update of the merge, with the arguments of the call.
abbrev pub asked : Merge → Call → ℕ → Merge
asked m (inject_mouse dx dy buttons wheel) now = record m {
  inject = merge_apply_mouse m.inject dx dy buttons wheel;
}
asked m (inject_keyboard modifier keys) now = record m {
  inject = merge_apply_keyboard m.inject modifier keys;
}
asked m (schedule_click_release button_mask delay_ms) now = record m {
  inject = merge_schedule_click_release m.inject button_mask delay_ms now;
}
asked m (schedule_kb_release key delay_ms) now = record m {
  inject = merge_schedule_kb_release m.inject key delay_ms now;
}

-- The arguments are of their types in C.
abbrev pub IsTyped : Call → Type 0
IsTyped (inject_mouse dx dy buttons wheel) = Fits true dx × Fits true dy × Fits false wheel
IsTyped (inject_keyboard modifier keys) = length keys ≡ 6
IsTyped (schedule_click_release button_mask delay_ms) = delay_ms < 2 ^ 32
IsTyped (schedule_kb_release key delay_ms) = delay_ms < 2 ^ 32

low_or_high : (w : ℕ) → w < 2 ^ 16 → bit_or (byte 0 w) (byte 1 w * 2 ^ 8) ≡ w
low_or_high w h = bit_or_low_high 8 (byte 1 w) (byte 0 w) (omega arith) ∙ omega (arith, h)

to_word16-lt : (v : ℤ) → to_word 16 v < 2 ^ 16
to_word16-lt (pos n) = omega arith
to_word16-lt (negsuc n) = omega arith

word16_back : (v : ℤ) → Fits true v → of_word 16 (to_word 16 v) ≡ v
word16_back (pos n) h = ground (arith, h)
word16_back (negsuc n) h = ground (arith, h)

word8_back : (v : ℤ) → Fits false v → of_word 8 (to_word 8 v) ≡ v
word8_back (pos n) h = ground (arith, h)
word8_back (negsuc n) h = ground (arith, h)

-- An `int16_t` in two bytes.
int16_back :
    (v : ℤ)
    → Fits true v
    → of_word 16 (bit_or (byte 0 (to_word 16 v)) (byte 1 (to_word 16 v) * 2 ^ 8)) ≡ v
int16_back v f = ap (of_word 16) (low_or_high (to_word 16 v) (to_word16-lt v)) ∙ word16_back v f

four_bytes :
    (n : ℕ)
    → n < 2 ^ 32
    → bit_or (bit_or (bit_or (byte 0 n) (byte 1 n * 2 ^ 8)) (byte 2 n * 2 ^ 16)) (byte 3 n * 2 ^ 24)
      ≡ n
four_bytes n h =
    let a : bit_or (byte 0 n) (byte 1 n * 2 ^ 8) ≡ n % 2 ^ 16 =
      bit_or_low_high 8 (byte 1 n) (byte 0 n) (omega arith) ∙ omega arith in
    let b : bit_or (n % 2 ^ 16) (byte 2 n * 2 ^ 16) ≡ n % 2 ^ 24 =
      bit_or_low_high 16 (byte 2 n) (n % 2 ^ 16) (omega arith) ∙ omega arith in
    let c : bit_or (n % 2 ^ 24) (byte 3 n * 2 ^ 24) ≡ n =
      bit_or_low_high 24 (byte 3 n) (n % 2 ^ 24) (omega arith) ∙ omega (arith, h) in
    ap (λ (q : ℕ). bit_or (bit_or q (byte 2 n * 2 ^ 16)) (byte 3 n * 2 ^ 24)) a
    ∙ (ap (λ (q : ℕ). bit_or q (byte 3 n * 2 ^ 24)) b ∙ c)

six_keys :
    (keys : List ℕ)
    → length keys ≡ 6
    → get_or keys 0 0
        ∷ get_or keys 1 0
        ∷ get_or keys 2 0
        ∷ get_or keys 3 0
        ∷ get_or keys 4 0
        ∷ get_or keys 5 0
        ∷ []
      ≡ keys
six_keys [] h = ground (arith, h)
six_keys (a ∷ []) h = ground (arith, h)
six_keys (a ∷ b ∷ []) h = ground (arith, h)
six_keys (a ∷ b ∷ c ∷ []) h = ground (arith, h)
six_keys (a ∷ b ∷ c ∷ d ∷ []) h = ground (arith, h)
six_keys (a ∷ b ∷ c ∷ d ∷ e ∷ []) h = ground (arith, h)
six_keys (a ∷ b ∷ c ∷ d ∷ e ∷ f ∷ []) h = refl
six_keys (a ∷ b ∷ c ∷ d ∷ e ∷ f ∷ g ∷ keys) h = ground (arith, h)

-- A call with arguments of their types: the record it makes, on the channel between the cores or cut to
-- the seven bytes of the link between the boards, does to the merge what the call asks for.
pub apply_record-record_of :
    (m : Merge) (c : Call) (now : ℕ)
    → IsTyped c
    → (usb_merge_apply_record m (record_of c).tag (record_of c).b now ≡ asked m c now)
      × (usb_merge_apply_record m (record_of c).tag (take 7 (record_of c).b) now ≡ asked m c now)
unfolding usb_merge_apply_record record_of mouse_record keyboard_record release_record
apply_record-record_of m (inject_mouse dx dy buttons wheel) now h =
    let e : merge_apply_mouse m.inject
          (of_word 16 (bit_or (byte 0 (to_word 16 dx)) (byte 1 (to_word 16 dx) * 2 ^ 8)))
          (of_word 16 (bit_or (byte 0 (to_word 16 dy)) (byte 1 (to_word 16 dy) * 2 ^ 8))) buttons
          (of_word 8 (to_word 8 wheel))
        ≡ merge_apply_mouse m.inject dx dy buttons wheel =
      rw (int16_back dx h.0, int16_back dy h.1, word8_back wheel h.2) refl in
    (ap (λ (i : Inject). record m { inject = i }) e, ap (λ (i : Inject). record m { inject = i }) e)
apply_record-record_of m (inject_keyboard modifier keys) now h =
    let e =
      ap (λ (k : List ℕ). record m { inject = merge_apply_keyboard m.inject modifier k })
        (six_keys keys h) in
    (e, e)
apply_record-record_of m (schedule_click_release button_mask delay_ms) now h =
    let e =
      ap (λ (n : ℕ). record m { inject = merge_schedule_click_release m.inject button_mask n now })
        (four_bytes delay_ms h) in
    (e, e)
apply_record-record_of m (schedule_kb_release key delay_ms) now h =
    let e =
      ap (λ (n : ℕ). record m { inject = merge_schedule_kb_release m.inject key n now })
        (four_bytes delay_ms h) in
    (e, e)
