-- ===== src/Helpers/Tests.antt =====
-- The helpers on concrete inputs.
use hurra_v.Base.{◌≡◌, refl, none, some}
use hurra_v.Helpers.{display_pick_row, pick_from}

-- Rows 0 and 3 are dirty, and the cursor is at 4.
picked : (display_pick_row 9 4 13 ≡ some 0) × (display_pick_row 0 4 13 ≡ none)
unfolding display_pick_row pick_from
picked = (refl, refl)
