-- ===== src/Merge/Report/Keyboard.antt =====
-- src/usb_merge.c, `usb_merge_keyboard` and `usb_merge_phys_keyboard`: an eight-byte keyboard report.
pub mod Keys
use hurra_v.Base.{ℕ, zero, suc, ◌+◌, Bool, true, false, not, ◌&&◌, ◌||◌, bit_or}
use hurra_v.Base.{List, [], ◌∷◌, get_or, set, ltb, ◌==◌, if◌then◌else◌}
use hurra_v.Actions.Masks.{Masks, act_phys_key_masked, act_phys_kb_mask_active}
use hurra_v.Merge.{Inject}

-- The search for a key in the `n` bytes from `j` on.
unfoldable pub has_key : ℕ → ℕ → List ℕ → ℕ → Bool
has_key zero j report key = false
has_key (suc n) j report key =
    let rest = has_key n (j + 1) report key in if get_or report j 0 == key then true else rest

-- The key goes to the first free one of them.
unfoldable pub put_key : ℕ → ℕ → List ℕ → ℕ → List ℕ
put_key zero j report key = report
put_key (suc n) j report key =
    let rest = put_key n (j + 1) report key in
    if get_or report j 0 == 0 then set report j key else rest

unfoldable pub merge_key : List ℕ → ℕ → List ℕ
merge_key report key =
    if (key == 0) || has_key 6 2 report key then report else put_key 6 2 report key

unfoldable pub merge_keys : List ℕ → List ℕ → List ℕ
merge_keys report [] = report
merge_keys report (key ∷ keys) = merge_keys (merge_key report key) keys

unfoldable pub usb_merge_keyboard : Inject → List ℕ → ℕ → List ℕ
usb_merge_keyboard i report len =
    if ltb len 8
    then report
    else merge_keys (set report 0 (bit_or (get_or report 0 0) i.kb_modifier)) i.kb_keys

-- The masked keys among the `n` bytes from `j` on go.
unfoldable pub mask_keys : Masks → ℕ → ℕ → List ℕ → List ℕ
mask_keys s zero j report = report
mask_keys s (suc n) j report = mask_keys s n (j + 1) (
    if not (get_or report j 0 == 0) && act_phys_key_masked s (get_or report j 0)
    then set report j 0
    else report)

unfoldable pub usb_merge_phys_keyboard : Masks → List ℕ → List ℕ
usb_merge_phys_keyboard s report =
    if act_phys_kb_mask_active s then mask_keys s 6 2 report else report
