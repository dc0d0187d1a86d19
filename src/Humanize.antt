-- ===== src/Humanize.antt =====
-- src/humanize.c: the quantizer of injected motion. The floats hold integers here, since every value that
-- the callers pass in is one: the sums are those of the code as long as they stay below 2 ^ 24, beyond which
-- a float rounds them.
pub mod Laws
use hurra_v.Base.{ℕ, ◌+◌, Bool, true, false, not, ◌||◌, if◌then◌else◌, ◌==◌, ltb}
use hurra_v.Base.Int.{ℤ, pos, negsuc, plus, minus, diff, neg, ◌+ℤ◌, ◌-ℤ◌, lt_int, limit, is_zero}

-- `S`, and `humanize_checkpoint_t`, which has the same fields.
pub record Humanize : Type 0 where
  pub owed_x : ℤ
  pub owed_y : ℤ
  pub res_x : ℤ
  pub res_y : ℤ

pub humanize_init : Humanize
humanize_init = record { owed_x = pos 0; owed_y = pos 0; res_x = pos 0; res_y = pos 0 }

-- `HZ_MAX_PER_FRAME`
abbrev pub max_per_frame : ℤ
max_per_frame = pos 127

-- What is sent, and the new `owed` and `res`. Rounding an integer to the nearest gives itself.
unfoldable pub drain_axis : ℤ → ℤ → ℤ → ℤ → ℤ × ℤ × ℤ
drain_axis owed res emit_v noise =
    let want = emit_v +ℤ noise +ℤ res in
    let capped = limit max_per_frame want in
    let out = capped in
    let uncapped_signal = emit_v +ℤ res in
    let signal_cut =
      if lt_int max_per_frame uncapped_signal
      then uncapped_signal -ℤ max_per_frame
      else if lt_int uncapped_signal (neg max_per_frame)
      then uncapped_signal -ℤ neg max_per_frame
      else pos 0 in
    (out, owed -ℤ (emit_v -ℤ signal_cut), capped -ℤ out)

-- The new state, and the two outputs.
unfoldable pub humanize_inject_emit : Humanize → ℤ → ℤ → Humanize × ℤ × ℤ
humanize_inject_emit s dx dy =
    let owed_x = s.owed_x +ℤ dx in
    let owed_y = s.owed_y +ℤ dy in
    let (out_x, left_x, res_x) = drain_axis owed_x s.res_x owed_x (pos 0) in
    let (out_y, left_y, res_y) = drain_axis owed_y s.res_y owed_y (pos 0) in
    (record { owed_x = left_x; owed_y = left_y; res_x = res_x; res_y = res_y }, out_x, out_y)

unfoldable pub humanize_return : Humanize → ℤ → ℤ → Humanize
humanize_return s dx dy = record s { owed_x = s.owed_x +ℤ dx; owed_y = s.owed_y +ℤ dy }

-- An integer is at least 0.01 in magnitude if it is not 0.
unfoldable pub humanize_pending : Humanize → Bool
humanize_pending s = not (is_zero s.owed_x) || not (is_zero s.owed_y)
