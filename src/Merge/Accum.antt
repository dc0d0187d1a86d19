-- ===== src/Merge/Accum.antt =====
-- src/usb_merge.c: the records of injected input, and the scheduled releases.
pub mod Endpoints
pub mod Decode
use hurra_v.Base.{
  ℕ, zero, suc, ◌+◌, ◌-◌, ◌*◌, ◌%◌, ◌^◌, Bool, true, false, not, ◌&&◌, bit_and, bit_or,
}
use hurra_v.Base.{List, [], ◌∷◌, ◌++◌, get_or, slice, length, ltb, ◌==◌, if◌then◌else◌}
use hurra_v.Base.Int.{ℤ, pos, ◌+ℤ◌, limit, of_word}
use hurra_v.Timing.{time_deadline_reached}
use hurra_v.Actions.Keys.{Release, clear_slot, close_gap}
use hurra_v.Actions.Masks.{Masks, act_phys_mask_mouse, act_phys_mask_key, act_phys_unmask_all}
use hurra_v.Icc.Ring.{Rec}
use hurra_v.Merge.{Inject, Merge}

-- `INJECT_ACCUM_CAP`
abbrev pub accum_cap : ℤ
accum_cap = pos 4096

unfoldable pub merge_apply_mouse : Inject → ℤ → ℤ → ℕ → ℤ → Inject
merge_apply_mouse i dx dy buttons wheel = record i {
  mouse_buttons = buttons;
  mouse_wheel = limit (pos 127) (i.mouse_wheel +ℤ wheel);
  mouse_dx = limit accum_cap (i.mouse_dx +ℤ dx);
  mouse_dy = limit accum_cap (i.mouse_dy +ℤ dy);
  mouse_dirty = true;
}

unfoldable pub merge_apply_keyboard : Inject → ℕ → List ℕ → Inject
merge_apply_keyboard i modifier keys = record i {
  kb_modifier = modifier;
  kb_keys = keys;
  kb_dirty = true;
}

abbrev pub release_at : ℕ → ℕ → ℕ
release_at now delay_ms =
    (now + (if ltb 0x7fffffff delay_ms then 0x7fffffff else delay_ms)) % 2 ^ 32

unfoldable pub merge_schedule_click_release : Inject → ℕ → ℕ → ℕ → Inject
merge_schedule_click_release i button_mask delay_ms now = record i {
  click_release_mask = button_mask;
  click_release_at = release_at now delay_ms;
}

-- The loop over the entries: the first entry of the key gets the new time; `full` is whether no entry can
-- be added at the end.
unfoldable pub schedule : Bool → ℕ → ℕ → List Release → List Release
schedule full key at [] = if full then [] else record { key = key; at = at } ∷ []
schedule full key at (r ∷ rs) =
    let rest = schedule full key at rs in
    if r.key == key then record { key = key; at = at } ∷ rs else r ∷ rest

-- `MAX_KB_RELEASES` is 6.
unfoldable pub merge_schedule_kb_release : Inject → ℕ → ℕ → ℕ → Inject
merge_schedule_kb_release i key delay_ms now = record i {
  kb_releases =
      schedule (not (ltb (length i.kb_releases) 6)) key (release_at now delay_ms) i.kb_releases;
}

-- The loop over the scheduled key releases on fuel: each round removes an entry, which the last one
-- replaces, or passes one by. The new keys and entries, and whether a key was released.
unfoldable pub release_keys : ℕ → ℕ → List ℕ → List Release → List ℕ × List Release × Bool
release_keys zero now keys rs = (keys, rs, false)
release_keys (suc fuel) now keys [] = (keys, [], false)
release_keys (suc fuel) now keys (r ∷ rs) = elim (time_deadline_reached now r.at) [
  | true ↦
      let (left, later, dirty) = release_keys fuel now (clear_slot r.key keys) (close_gap rs) in
      (left, later, true)
  | false ↦ let (left, later, dirty) = release_keys fuel now keys rs in (left, r ∷ later, dirty)
]

unfoldable pub release_click : Inject → ℕ → Inject
release_click i now =
    if not (i.click_release_mask == 0) && time_deadline_reached now i.click_release_at
    then record i {
      mouse_buttons = bit_and i.mouse_buttons (255 - i.click_release_mask);
      mouse_dirty = true;
      click_release_mask = 0;
      click_release_at = 0;
    }
    else i

unfoldable pub merge_run_releases : Inject → ℕ → Inject
merge_run_releases i now =
    let c = release_click i now in
    let (keys, later, dirty) = release_keys (length c.kb_releases) now c.kb_keys c.kb_releases in
    record c { kb_keys = keys; kb_releases = later; kb_dirty = if dirty then true else c.kb_dirty }

abbrev pub word16 : List ℕ → ℕ → ℕ
word16 b i = bit_or (get_or b i 0) (get_or b (i + 1) 0 * 2 ^ 8)

-- The four bytes of a delay.
abbrev pub delay_of : List ℕ → ℕ
delay_of b =
    bit_or (bit_or (bit_or (get_or b 1 0) (get_or b 2 0 * 2 ^ 8)) (get_or b 3 0 * 2 ^ 16))
      (get_or b 4 0 * 2 ^ 24)

-- `ICC_TAG_PHYS_MASK`
unfoldable pub apply_phys_mask : Masks → List ℕ → Masks
apply_phys_mask masks b =
    let enable = not (get_or b 2 0 == 0) in
    if get_or b 0 0 == 0
    then act_phys_mask_mouse masks (get_or b 1 0) enable
    else if get_or b 0 0 == 1
    then act_phys_mask_key masks (get_or b 1 0) enable
    else if get_or b 0 0 == 2
    then act_phys_unmask_all masks
    else masks

unfoldable pub usb_merge_apply_record : Merge → ℕ → List ℕ → ℕ → Merge
usb_merge_apply_record m tag b now =
    if tag == 1
    then record m {
      inject =
          merge_apply_mouse m.inject (of_word 16 (word16 b 0)) (of_word 16 (word16 b 2))
            (get_or b 4 0) (of_word 8 (get_or b 5 0));
    }
    else if tag == 2
    then record m { inject = merge_apply_keyboard m.inject (get_or b 0 0) (slice b 1 6) }
    else if tag == 3
    then record m { inject = merge_schedule_click_release m.inject (get_or b 0 0) (delay_of b) now }
    else if tag == 4
    then record m { inject = merge_schedule_kb_release m.inject (get_or b 0 0) (delay_of b) now }
    else if tag == 7
    then record m { masks = apply_phys_mask m.masks b }
    else m

-- The loop over the records received: a temperature of the device board, tag 8, is kept apart.
unfoldable pub apply_records : Merge → ℤ → List Rec → ℕ → Merge × ℤ
apply_records m temp [] now = (m, temp)
apply_records m temp (r ∷ rs) now =
    let (after, t) =
      if r.tag == 8
      then (m, of_word 8 (get_or r.b 0 0))
      else (usb_merge_apply_record m r.tag r.b now, temp) in
    apply_records after t rs now

-- With the records that `icc_recv_from_v3f` gives, and the temperature that is shown.
unfoldable pub usb_merge_drain_icc : Merge → ℤ → List Rec → ℕ → Merge × ℤ
usb_merge_drain_icc m temp received now =
    let (after, t) = apply_records (record m { merged_this_cycle = false }) temp received now in
    (record after { inject = merge_run_releases after.inject now }, t)
