-- ===== src/Actions/Masks/Tests.antt =====
-- The masked keys on concrete keys.
use hurra_v.Base.{◌≡◌, refl, arith, true, false, [], ◌∷◌}
use hurra_v.Actions.Masks.{
  Masks, act_kb_mask, act_kb_mask_get, unmask, find, close_gap, last_first, act_phys_mask_mouse,
}
use hurra_v.Actions.Masks.Laws.{IsValid, act_kb_mask-IsValid, mask_get_mask}

abbrev empty : Masks
empty = record { mouse = 0; keys = [] }

empty-IsValid : IsValid empty
empty-IsValid = record { once = λ q. omega arith; strict = λ q. omega arith; room = omega arith }

abbrev two : Masks
two = act_kb_mask (act_kb_mask empty 4 1) 5 2

two-IsValid : IsValid two
two-IsValid =
    act_kb_mask-IsValid (act_kb_mask empty 4 1) 5 2 (act_kb_mask-IsValid empty 4 1 empty-IsValid)

mask_get_mask_example : act_kb_mask_get (act_kb_mask two 4 0) 5 ≡ act_kb_mask_get two 5
mask_get_mask_example = mask_get_mask two 4 0 5 two-IsValid

-- The last entry takes the place of the removed one.
removed : (act_kb_mask two 4 0).keys ≡ record { key = 5; mode = 2 } ∷ []
unfolding act_kb_mask unmask find close_gap last_first
removed = refl

wheel_and_right :
    (act_phys_mask_mouse
      (act_phys_mask_mouse (act_phys_mask_mouse empty 7 true) 1 true)
      7
      false).mouse
    ≡ 2
unfolding act_phys_mask_mouse
wheel_and_right = refl
