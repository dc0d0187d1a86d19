-- ===== src/Actions/Masks.antt =====
-- src/actions.c, the masking of physical inputs: the bitmap of the mouse and the table of masked keys.
mod Tests
pub mod Laws
use hurra_v.Base.{ℕ, zero, suc, ◌+◌, ◌-◌, ◌^◌, ◌%◌, Bool, true, false, not, bit_and, bit_or}
use hurra_v.Base.{List, [], ◌∷◌, ◌++◌, ltb, ◌==◌, if◌then◌else◌, length}

-- An entry of `g_masked_keys` with that of `g_masked_modes`.
pub record Masked : Type 0 where
  pub key : ℕ
  pub mode : ℕ

-- `g_phys_mask`, and the entries below `g_masked_count`.
pub record Masks : Type 0 where
  pub mouse : ℕ
  pub keys : List Masked

-- `ACT_MAX_DISABLED_KEYS`
abbrev pub max_keys : ℕ
max_keys = 32

pub last_first : Masked → List Masked → List Masked
last_first m [] = m ∷ []
last_first m (n ∷ ms) = elim (last_first n ms) [ [] ↦ [] | l ∷ others ↦ l ∷ m ∷ others ]

-- The entries behind a removed one, with the last one in its place.
pub close_gap : List Masked → List Masked
close_gap [] = []
close_gap (m ∷ ms) = last_first m ms

-- The loop of `act_kb_mask` for mode 0.
pub unmask : ℕ → List Masked → List Masked
unmask key [] = []
unmask key (m ∷ ms) = let rest = unmask key ms in if m.key == key then close_gap ms else m ∷ rest

-- The loop for another mode: the first entry of the key is changed.
pub change : ℕ → ℕ → List Masked → List Masked
change key mode [] = []
change key mode (m ∷ ms) =
    let rest = change key mode ms in
    if m.key == key then record m { mode = mode } ∷ ms else m ∷ rest

pub find : ℕ → List Masked → Bool
find key [] = false
find key (m ∷ ms) = let rest = find key ms in if m.key == key then true else rest

pub act_kb_mask : Masks → ℕ → ℕ → Masks
act_kb_mask s key mode =
    if mode == 0
    then record s { keys = unmask key s.keys }
    else if find key s.keys
    then record s { keys = change key mode s.keys }
    else if ltb (length s.keys) max_keys
    then record s { keys = s.keys ++ (record { key = key; mode = mode } ∷ []) }
    else s

-- The mode of the first entry of the key, or 0.
pub mode_of : ℕ → List Masked → ℕ
mode_of key [] = 0
mode_of key (m ∷ ms) = let rest = mode_of key ms in if m.key == key then m.mode else rest

pub act_kb_mask_get : Masks → ℕ → ℕ
act_kb_mask_get s key = mode_of key s.keys

-- `PHYS_MASK_WHEEL` is the last bit.
pub act_phys_mask_mouse : Masks → ℕ → Bool → Masks
act_phys_mask_mouse s code enable =
    if ltb 7 code
    then s
    else let bit = 2 ^ code % 0x10000 in
      if enable
      then record s { mouse = bit_or s.mouse bit }
      else record s { mouse = bit_and s.mouse (0xffff - bit) }

pub act_phys_mask_key : Masks → ℕ → Bool → Masks
act_phys_mask_key s key enable = act_kb_mask s key (if enable then 1 else 0)

pub act_phys_unmask_all : Masks → Masks
act_phys_unmask_all s = record { mouse = 0; keys = [] }

-- The loop of `act_phys_key_masked`.
unfoldable pub masked_in : ℕ → List Masked → Bool
masked_in key [] = false
masked_in key (m ∷ ms) =
    let rest = masked_in key ms in
    if m.key == key then (if m.mode == 0 then rest else true) else rest

unfoldable pub act_phys_key_masked : Masks → ℕ → Bool
act_phys_key_masked s key = masked_in key s.keys

unfoldable pub act_phys_kb_mask_active : Masks → Bool
act_phys_kb_mask_active s = not (length s.keys == 0)
