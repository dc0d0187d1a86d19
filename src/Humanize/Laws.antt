-- ===== src/Humanize/Laws.antt =====
-- The quantizer loses nothing.
use hurra_v.Base.{◌≤◌, ◌≡◌, arith}
use hurra_v.Base.Int.{ℤ, pos, negsuc, plus, minus, ◌+ℤ◌}
use hurra_v.Humanize.{Humanize, drain_axis, humanize_inject_emit}

-- No residue: so it stays, for motion in whole counts.
pub record IsWhole (s : Humanize) : Type 0 where
  pub whole_x : s.res_x ≡ pos 0
  pub whole_y : s.res_y ≡ pos 0

abbrev pub IsFrame : ℤ → Type 0
IsFrame v = (plus v ≤ 127) × (minus v ≤ 127)

drain_lem :
    (owed : ℤ)
    → ((drain_axis owed (pos 0) owed (pos 0)).0 +ℤ (drain_axis owed (pos 0) owed (pos 0)).1 ≡ owed)
      × ((drain_axis owed (pos 0) owed (pos 0)).2 ≡ pos 0)
      × IsFrame (drain_axis owed (pos 0) owed (pos 0)).0
unfolding drain_axis
drain_lem (pos n) = ground arith
drain_lem (negsuc n) = ground arith

-- What is emitted and what is still owed add up to what was owed and what came in, on each axis; a frame
-- carries at most 127 counts.
pub emit_lem :
    (s : Humanize) (dx dy : ℤ)
    → IsWhole s
    → ((humanize_inject_emit s dx dy).1 +ℤ (humanize_inject_emit s dx dy).0.owed_x ≡ s.owed_x +ℤ dx)
      × ((humanize_inject_emit s dx dy).2 +ℤ (humanize_inject_emit s dx dy).0.owed_y
          ≡ s.owed_y +ℤ dy)
      × IsFrame (humanize_inject_emit s dx dy).1
      × IsFrame (humanize_inject_emit s dx dy).2
      × IsWhole (humanize_inject_emit s dx dy).0
unfolding humanize_inject_emit
emit_lem s dx dy w =
    let x = drain_lem (s.owed_x +ℤ dx) in
    let y = drain_lem (s.owed_y +ℤ dy) in
    rw (w.whole_x, w.whole_y) (x.0, y.0, x.2, y.2, record { whole_x = x.1; whole_y = y.1 })
