-- ===== src/Actions/Mouse/Motion.antt =====
-- The steps of a timed move.
pub mod Lands
use hurra_v.Base.{
  ℕ, zero, suc, ◌+◌, ◌-◌, ◌*◌, ◌/◌, ◌%◌, ◌^◌, ◌≤◌, ◌<◌, ◌≡◌, ◌≢◌, ◌⊎◌, inl, inr, refl, ap, ap₂, ◌∙◌,
  sym, arith, Bool, true, false, ◌||◌, ◌&&◌,
}
use hurra_v.Base.{List, [], ◌∷◌, ◌++◌, Option, none, some, Bool-cases, if◌then◌else◌, ◌==◌, min}
use hurra_v.Base.Int.{ℤ, pos, negsuc, plus, minus, ◌+ℤ◌, ◌-ℤ◌, scale, shr, is_zero, int_eq, clamp}
use hurra_v.Actions.Mouse.{
  Mouse, Move, MotionProgram, linear, no_motion, ease_smoothstep, progress, target, send_step,
  motion_step, act_motion_tick, act_move_raw, transform, act_motion_move_dur, motion_start,
}

-- On the way from 0 to `e`.
abbrev pub Between : ℤ → ℤ → Type 0
Between e a = (plus a ≤ plus e) × (minus a ≤ minus e)

abbrev pub IsInt16 : ℤ → Type 0
IsInt16 e = (plus e ≤ 0x7fff) × (minus e ≤ 0x8000)

pub ease-le : (t one : ℕ) → ease_smoothstep t one ≤ one
unfolding ease_smoothstep
ease-le t one = ground arith

ease_end : ease_smoothstep 65536 65536 ≡ 65536
unfolding ease_smoothstep
ease_end = refl

mul-le : (s n : ℕ) → s ≤ 65536 → s * n ≤ 65536 * n
mul-le s n h = grind arith

pub eased-Between : (s : ℕ) (e : ℤ) → s ≤ 65536 → Between e (shr (scale s e) 16)
eased-Between s (pos n) h = ground (arith, mul-le s n h)
eased-Between s (negsuc n) h = ground (arith, mul-le s (n + 1) h)

eased_end : (e : ℤ) → shr (scale 65536 e) 16 ≡ e
eased_end (pos n) = ground arith
eased_end (negsuc n) = ground arith

-- A step stays on the way, and the last one is an `int16_t`.
pub step-Between : (e a b : ℤ) → Between e a → Between e b → Between e (a +ℤ clamp 0x7fff (b -ℤ a))
step-Between (pos n) a b h k = ground arith
step-Between (negsuc n) a b h k = ground arith

pub step_end : (e a : ℤ) → IsInt16 e → Between e a → a +ℤ clamp 0x7fff (e -ℤ a) ≡ e
step_end (pos n) a w h = ground arith
step_end (negsuc n) a w h = ground arith

pub int_eq_refl : (e : ℤ) → int_eq e e ≡ true
int_eq_refl (pos n) = ground arith
int_eq_refl (negsuc n) = ground arith

pub add_assoc : (a b c : ℤ) → a +ℤ b +ℤ c ≡ a +ℤ (b +ℤ c)
add_assoc a b c = ground arith

pub add_zero : (a : ℤ) → a +ℤ pos 0 ≡ a
add_zero a = ground arith

pub zero_add : (a : ℤ) → pos 0 +ℤ a ≡ a
zero_add a = ground arith

-- What was sent along each axis in all.
pub total_x : List Move → ℤ
total_x [] = pos 0
total_x (o ∷ os) = o.dx +ℤ total_x os

pub total_y : List Move → ℤ
total_y [] = pos 0
total_y (o ∷ os) = o.dy +ℤ total_y os

total-append :
    (os ps : List Move)
    → (total_x (os ++ ps) ≡ total_x os +ℤ total_x ps)
      × (total_y (os ++ ps) ≡ total_y os +ℤ total_y ps)
unfolding total_x total_y
total-append [] ps = (sym (zero_add (total_x ps)), sym (zero_add (total_y ps)))
total-append (o ∷ os) ps = (
  ap (◌+ℤ◌ o.dx) (total-append os ps).0 ∙ sym (add_assoc o.dx (total_x os) (total_x ps)),
  ap (◌+ℤ◌ o.dy) (total-append os ps).1 ∙ sym (add_assoc o.dy (total_y os) (total_y ps)),
)

-- No swapped or inverted axes.
pub record IsStraight (m : Mouse) : Type 0 where
  pub no_swap : m.swap_xy ≡ false
  pub no_invert_x : m.invert_x ≡ false
  pub no_invert_y : m.invert_y ≡ false

zeros : (x y : ℤ) → (is_zero x && is_zero y) ≡ true → (x ≡ pos 0) × (y ≡ pos 0)
zeros x y z = ground (arith, z)

raw-IsStraight : (m : Mouse) (x y : ℤ) → IsStraight m → IsStraight (act_move_raw m x y).0
unfolding act_move_raw
raw-IsStraight m x y s = record {
  no_swap = s.no_swap;
  no_invert_x = s.no_invert_x;
  no_invert_y = s.no_invert_y;
}

raw_total :
    (m : Mouse) (x y : ℤ)
    → IsStraight m
    → (total_x (act_move_raw m x y).1 ≡ x) × (total_y (act_move_raw m x y).1 ≡ y)
unfolding act_move_raw transform total_x total_y
raw_total m x y s = rw (s.no_swap, s.no_invert_x, s.no_invert_y) (add_zero x, add_zero y)

send_step_lem :
    (m : Mouse) (x y : ℤ)
    → IsStraight m
    → (total_x (send_step m x y).1 ≡ x)
      × (total_y (send_step m x y).1 ≡ y)
      × IsStraight (send_step m x y).0
unfolding send_step total_x total_y
send_step_lem m x y s = elim (Bool-cases (is_zero x && is_zero y)) [
  | inl z ↦ let both = zeros x y z in rw z (sym both.0, sym both.1, s)
  | inr z ↦ rw z ((raw_total m x y s).0, (raw_total m x y s).1, raw-IsStraight m x y s)
]

-- What one step of a program sends is what it counts as sent.
pub step_sends :
    (m : Mouse) (now : ℕ)
    → IsStraight m
    → (m.motion.emit_x +ℤ total_x (motion_step m now).1 ≡ (motion_step m now).0.motion.emit_x)
      × (m.motion.emit_y +ℤ total_y (motion_step m now).1 ≡ (motion_step m now).0.motion.emit_y)
      × IsStraight (motion_step m now).0
unfolding motion_step
step_sends m now s =
    let t = target m.motion (progress m.motion now).0 in
    let l =
      send_step_lem m (clamp 0x7fff (t.0 -ℤ m.motion.emit_x))
        (clamp 0x7fff (t.1 -ℤ m.motion.emit_y)) s in
    (
      ap (λ (q : ℤ). m.motion.emit_x +ℤ q) l.0,
      ap (λ (q : ℤ). m.motion.emit_y +ℤ q) l.1,
      record {
        no_swap = l.2.no_swap;
        no_invert_x = l.2.no_invert_x;
        no_invert_y = l.2.no_invert_y;
      },
    )

-- A timed move on its way, or one that has arrived.
pub record IsLinear (p : MotionProgram) : Type 0 where
  pub runs : p.kind ≡ linear
  pub word_x : IsInt16 p.ex
  pub word_y : IsInt16 p.ey
  pub way_x : Between p.ex p.emit_x
  pub way_y : Between p.ey p.emit_y

abbrev pub over : MotionProgram → ℕ → Bool
over p now = (progress p now).1

pub linear_target :
    (p : MotionProgram) (t : ℕ)
    → p.kind ≡ linear
    → target p t ≡ (
      shr (scale (ease_smoothstep t 65536) p.ex) 16,
      shr (scale (ease_smoothstep t 65536) p.ey) 16,
    )
unfolding target
linear_target p t k = ground (arith, k)

pub last_target :
    (p : MotionProgram) (now : ℕ)
    → p.kind ≡ linear
    → over p now ≡ true
    → target p (progress p now).0 ≡ (p.ex, p.ey)
unfolding progress
last_target p now k o =
    let q : (progress p now).0 ≡ 65536 = ground (arith, o) in
    ap (target p) q
    ∙ (linear_target p 65536 k
        ∙ rw (ease_end) (ap₂ (λ (a b : ℤ). (a, b)) (eased_end p.ex) (eased_end p.ey)))
