-- ===== src/Actions/Mouse/Bezier.antt =====
-- The end of a curve: for a negative endpoint it is one count too far.
use hurra_v.Base.{ℕ, ◌+◌, ◌≡◌, refl, ap, ◌∙◌, arith, true, false}
use hurra_v.Base.Int.{ℤ, pos, negsuc, ◌+ℤ◌, ◌-ℤ◌, int_eq, clamp}
use hurra_v.Actions.Mouse.{
  Mouse, MotionProgram, bezier, bezier_axis, progress, target, motion_step, act_motion_tick,
}

-- One count further from zero, for a negative number.
abbrev pub overshoot : ℤ → ℤ
overshoot (pos n) = pos n
overshoot (negsuc n) = negsuc (n + 1)

-- The last point of a curve is its endpoint where that is not negative, and one count beyond it where
-- it is: rounding adds a half away from zero, and the shift then rounds down.
pub bezier_axis-end : (c1 c2 e : ℤ) → bezier_axis c1 c2 e 65536 65536 ≡ overshoot e
unfolding bezier_axis
bezier_axis-end c1 c2 (pos n) = ground arith
bezier_axis-end c1 c2 (negsuc n) = ground arith

-- The tick of a curve that is over.
over_target :
    (p : MotionProgram) (now : ℕ)
    → p.kind ≡ bezier
    → (progress p now).1 ≡ true
    → target p (progress p now).0 ≡ (overshoot p.ex, overshoot p.ey)
unfolding target progress
over_target p now k e =
    ground (arith, k, e, bezier_axis-end p.c1x p.c2x p.ex, bezier_axis-end p.c1y p.c2y p.ey)

add_sub : (a b : ℤ) → a +ℤ (b -ℤ a) ≡ b
add_sub a b = ground arith

overshoot_ne : (n : ℕ) → int_eq (negsuc (n + 1)) (negsuc n) ≡ false
overshoot_ne n = ground arith

tick-eq-step :
    (m : Mouse) (now : ℕ) → m.motion.kind ≡ bezier → act_motion_tick m now ≡ motion_step m now
unfolding act_motion_tick
tick-eq-step m now k = ground (arith, k)

step_x :
    (m : Mouse) (now : ℕ)
    → (motion_step m now).0.motion.emit_x
      ≡ m.motion.emit_x
        +ℤ clamp 0x7fff ((target m.motion (progress m.motion now).0).0 -ℤ m.motion.emit_x)
unfolding motion_step
step_x m now = refl

-- The program goes on while it is not at its endpoint.
step_kind :
    (m : Mouse) (now : ℕ)
    → int_eq (motion_step m now).0.motion.emit_x m.motion.ex ≡ false
    → (motion_step m now).0.motion.kind ≡ m.motion.kind
unfolding motion_step
step_kind m now h = ground (arith, h)

-- A curve to a negative endpoint, at a tick past its end that has no more than an `int16_t` step to go:
-- it emits up to one count beyond the endpoint, and the program is not over.
pub bezier_goes_too_far :
    (m : Mouse) (now n : ℕ)
    → m.motion.kind ≡ bezier
    → (progress m.motion now).1 ≡ true
    → m.motion.ex ≡ negsuc n
    → clamp 0x7fff (negsuc (n + 1) -ℤ m.motion.emit_x) ≡ negsuc (n + 1) -ℤ m.motion.emit_x
    → ((act_motion_tick m now).0.motion.emit_x ≡ negsuc (n + 1))
      × ((act_motion_tick m now).0.motion.kind ≡ bezier)
bezier_goes_too_far m now n k e x fits =
    let t = over_target m.motion now k e in
    let end : (motion_step m now).0.motion.emit_x ≡ negsuc (n + 1) =
      step_x m now
      ∙ (ap (λ (q : ℤ × ℤ). m.motion.emit_x +ℤ clamp 0x7fff (q.0 -ℤ m.motion.emit_x)) t
          ∙ (ap (λ (q : ℤ). m.motion.emit_x +ℤ clamp 0x7fff (overshoot q -ℤ m.motion.emit_x)) x
              ∙ (ap (λ (q : ℤ). m.motion.emit_x +ℤ q) fits
                  ∙ add_sub m.motion.emit_x (negsuc (n + 1))))) in
    let ne : int_eq (motion_step m now).0.motion.emit_x m.motion.ex ≡ false =
      ap (λ (q : ℤ). int_eq q m.motion.ex) end
      ∙ (ap (λ (q : ℤ). int_eq (negsuc (n + 1)) q) x ∙ overshoot_ne n) in
    let same = tick-eq-step m now k in rw same (end, step_kind m now ne ∙ k)
