-- ===== src/Actions/Mouse/Motion/Lands.antt =====
-- A timed move, whenever its ticks come, delivers exactly its endpoint.
use hurra_v.Base.{
  ℕ, ◌≤◌, ◌≡◌, inl, inr, refl, ap, ap₂, ◌∙◌, sym, subst, arith, Bool, true, false, ◌||◌,
}
use hurra_v.Base.{List, [], ◌∷◌, ◌++◌, Option, Bool-cases}
use hurra_v.Base.Int.{ℤ, pos, ◌+ℤ◌, ◌-ℤ◌, scale, shr, int_eq, clamp}
use hurra_v.Actions.Mouse.{
  Mouse, Move, MotionProgram, linear, no_motion, ease_smoothstep, progress, target, motion_step,
  act_motion_tick, act_motion_move_dur, motion_start,
}
use hurra_v.Actions.Mouse.Motion.{
  zero_add, Between, IsInt16, ease-le, eased-Between, step-Between, step_end, int_eq_refl,
  add_assoc, add_zero, total_x, total_y, total-append, IsStraight, step_sends, IsLinear, over,
  linear_target, last_target,
}

-- What does not change in a step.
step_same :
    (m : Mouse) (now : ℕ)
    → ((motion_step m now).0.motion.ex ≡ m.motion.ex)
      × ((motion_step m now).0.motion.ey ≡ m.motion.ey)
      × ((motion_step m now).0.motion.start_ms ≡ m.motion.start_ms)
      × ((motion_step m now).0.motion.dur_ms ≡ m.motion.dur_ms)
      × ((motion_step m now).0.motion.emit_x
          ≡ m.motion.emit_x
            +ℤ clamp 0x7fff ((target m.motion (progress m.motion now).0).0 -ℤ m.motion.emit_x))
      × ((motion_step m now).0.motion.emit_y
          ≡ m.motion.emit_y
            +ℤ clamp 0x7fff ((target m.motion (progress m.motion now).0).1 -ℤ m.motion.emit_y))
unfolding motion_step
step_same m now = (refl, refl, refl, refl, refl, refl)

step_early :
    (m : Mouse) (now : ℕ)
    → over m.motion now ≡ false
    → (motion_step m now).0.motion.kind ≡ m.motion.kind
unfolding motion_step
step_early m now o = ground (arith, o)

step_late :
    (m : Mouse) (now : ℕ)
    → over m.motion now ≡ true
    → int_eq (motion_step m now).0.motion.emit_x m.motion.ex ≡ true
    → int_eq (motion_step m now).0.motion.emit_y m.motion.ey ≡ true
    → (motion_step m now).0.motion.kind ≡ no_motion
unfolding motion_step
step_late m now o x y = ground (arith, o, x, y)

tick-eq-step :
    (m : Mouse) (now : ℕ) → m.motion.kind ≡ linear → act_motion_tick m now ≡ motion_step m now
unfolding act_motion_tick
tick-eq-step m now k = ground (arith, k)

tick_idle : (m : Mouse) (now : ℕ) → m.motion.kind ≡ no_motion → act_motion_tick m now ≡ (m, [])
unfolding act_motion_tick
tick_idle m now k = ground (arith, k)

step-IsLinear :
    (m : Mouse) (now : ℕ)
    → IsLinear m.motion
    → over m.motion now ≡ false
    → IsLinear (motion_step m now).0.motion
step-IsLinear m now l o =
    let s = step_same m now in
    let t = (progress m.motion now).0 in
    let e = ease_smoothstep t 65536 in
    let tx = ap (λ (q : ℤ × ℤ). q.0) (linear_target m.motion t l.runs) in
    let ty = ap (λ (q : ℤ × ℤ). q.1) (linear_target m.motion t l.runs) in
    let bx =
      step-Between m.motion.ex m.motion.emit_x (shr (scale e m.motion.ex) 16) l.way_x
        (eased-Between e m.motion.ex (ease-le t 65536)) in
    let by =
      step-Between m.motion.ey m.motion.emit_y (shr (scale e m.motion.ey) 16) l.way_y
        (eased-Between e m.motion.ey (ease-le t 65536)) in
    let ax = s.4 ∙ ap (λ (q : ℤ). m.motion.emit_x +ℤ clamp 0x7fff (q -ℤ m.motion.emit_x)) tx in
    let ay = s.5 ∙ ap (λ (q : ℤ). m.motion.emit_y +ℤ clamp 0x7fff (q -ℤ m.motion.emit_y)) ty in
    record {
      runs = step_early m now o ∙ l.runs;
      word_x = subst IsInt16 (sym s.0) l.word_x;
      word_y = subst IsInt16 (sym s.1) l.word_y;
      way_x =
          subst (λ q. Between q (motion_step m now).0.motion.emit_x) (sym s.0)
            (subst (Between m.motion.ex) (sym ax) bx);
      way_y =
          subst (λ q. Between q (motion_step m now).0.motion.emit_y) (sym s.1)
            (subst (Between m.motion.ey) (sym ay) by);
    }

-- A tick at the end or after it arrives.
step_arrives :
    (m : Mouse) (now : ℕ)
    → IsLinear m.motion
    → over m.motion now ≡ true
    → ((motion_step m now).0.motion.kind ≡ no_motion)
      × ((motion_step m now).0.motion.emit_x ≡ m.motion.ex)
      × ((motion_step m now).0.motion.emit_y ≡ m.motion.ey)
step_arrives m now l o =
    let s = step_same m now in
    let t = last_target m.motion now l.runs o in
    let ax =
      s.4
      ∙ (ap (λ (q : ℤ × ℤ). m.motion.emit_x +ℤ clamp 0x7fff (q.0 -ℤ m.motion.emit_x)) t
          ∙ step_end m.motion.ex m.motion.emit_x l.word_x l.way_x) in
    let ay =
      s.5
      ∙ (ap (λ (q : ℤ × ℤ). m.motion.emit_y +ℤ clamp 0x7fff (q.1 -ℤ m.motion.emit_y)) t
          ∙ step_end m.motion.ey m.motion.emit_y l.word_y l.way_y) in
    (
      step_late m now o (ap (λ (q : ℤ). int_eq q m.motion.ex) ax ∙ int_eq_refl m.motion.ex)
          (ap (λ (q : ℤ). int_eq q m.motion.ey) ay ∙ int_eq_refl m.motion.ey),
      ax,
      ay,
    )

-- The ticks at the given times.
pub ticks : Mouse → List ℕ → Mouse × List Move
ticks m [] = (m, [])
ticks m (t ∷ ts) =
    let once = act_motion_tick m t in let rest = ticks once.0 ts in (rest.0, once.1 ++ rest.1)

unfoldable pub any_over : MotionProgram → List ℕ → Bool
any_over p [] = false
any_over p (t ∷ ts) = over p t || any_over p ts

over_same :
    (p q : MotionProgram) (t : ℕ)
    → p.start_ms ≡ q.start_ms
    → p.dur_ms ≡ q.dur_ms
    → over p t ≡ over q t
unfolding progress
over_same p q t s d = rw (s, d) refl

any_over_same :
    (p q : MotionProgram) (ts : List ℕ)
    → p.start_ms ≡ q.start_ms
    → p.dur_ms ≡ q.dur_ms
    → any_over p ts ≡ any_over q ts
unfolding any_over
any_over_same p q [] s d = refl
any_over_same p q (t ∷ ts) s d = ap₂ (◌||◌) (over_same p q t s d) (any_over_same p q ts s d)

ticks_idle : (m : Mouse) (ts : List ℕ) → m.motion.kind ≡ no_motion → ticks m ts ≡ (m, [])
unfolding ticks
ticks_idle m [] k = refl
ticks_idle m (t ∷ ts) k = rw (tick_idle m t k, ticks_idle m ts k) refl

abbrev HasLanded : Mouse → ℤ → ℤ → Mouse × List Move → Type 0
HasLanded m ex ey r =
    (m.motion.emit_x +ℤ total_x r.1 ≡ ex)
    × (m.motion.emit_y +ℤ total_y r.1 ≡ ey)
    × (r.0.motion.kind ≡ no_motion)

-- One tick, then the rest.
then_lands :
    (m : Mouse) (t : ℕ) (ex ey : ℤ) (r : Mouse × List Move)
    → IsStraight m
    → HasLanded (motion_step m t).0 ex ey r
    → HasLanded m ex ey (r.0, (motion_step m t).1 ++ r.1)
then_lands m t ex ey r s h =
    let one = motion_step m t in
    let both = total-append one.1 r.1 in
    let sent = step_sends m t s in
    (
      ap (λ (q : ℤ). m.motion.emit_x +ℤ q) both.0
          ∙ (sym (add_assoc m.motion.emit_x (total_x one.1) (total_x r.1))
              ∙ (ap (λ (q : ℤ). q +ℤ total_x r.1) sent.0 ∙ h.0)),
      ap (λ (q : ℤ). m.motion.emit_y +ℤ q) both.1
          ∙ (sym (add_assoc m.motion.emit_y (total_y one.1) (total_y r.1))
              ∙ (ap (λ (q : ℤ). q +ℤ total_y r.1) sent.1 ∙ h.1)),
      h.2,
    )

idle_landed :
    (m : Mouse) (ts : List ℕ)
    → m.motion.kind ≡ no_motion
    → HasLanded m m.motion.emit_x m.motion.emit_y (ticks m ts)
unfolding total_x total_y
idle_landed m ts k = rw (ticks_idle m ts k) (add_zero m.motion.emit_x, add_zero m.motion.emit_y, k)

tick_rest :
    (m : Mouse) (t : ℕ) (ts : List ℕ)
    → m.motion.kind ≡ linear
    → ticks m (t ∷ ts)
      ≡ ((ticks (motion_step m t).0 ts).0, (motion_step m t).1 ++ (ticks (motion_step m t).0 ts).1)
unfolding ticks
tick_rest m t ts k = rw (tick-eq-step m t k) refl

any_later :
    (p : MotionProgram) (t : ℕ) (ts : List ℕ)
    → over p t ≡ false
    → any_over p (t ∷ ts) ≡ true
    → any_over p ts ≡ true
unfolding any_over
any_later p t ts o a = ground (arith, o, a)

never : (p : MotionProgram) → any_over p [] ≡ true → false ≡ true
unfolding any_over
never p a = a

running_lands :
    (m : Mouse) (ts : List ℕ)
    → IsLinear m.motion
    → IsStraight m
    → any_over m.motion ts ≡ true
    → HasLanded m m.motion.ex m.motion.ey (ticks m ts)
running_lands m [] l s a = ground (arith, never m.motion a)
running_lands m (t ∷ ts) l s a =
    let next = (motion_step m t).0 in
    let same = step_same m t in
    rw (tick_rest m t ts l.runs) (
      then_lands m t m.motion.ex m.motion.ey (ticks next ts) s
        (elim (Bool-cases (over m.motion t)) [
          | inl o ↦
              let end = step_arrives m t l o in
              let done = idle_landed next ts end.0 in (done.0 ∙ end.1, done.1 ∙ end.2, done.2)
          | inr o ↦
              let more =
                any_over_same next.motion m.motion ts same.2 same.3 ∙ any_later m.motion t ts o a in
              let rest = running_lands next ts (step-IsLinear m t l o) (step_sends m t s).2 more in
              (rest.0 ∙ same.0, rest.1 ∙ same.1, rest.2)
        ]))

start_IsLinear :
    (m : Mouse) (dx dy : ℤ) (dur now : ℕ)
    → IsInt16 dx
    → IsInt16 dy
    → IsLinear (motion_start m linear dx dy dur now).motion
unfolding motion_start
start_IsLinear m dx dy dur now x y = record {
  runs = refl;
  word_x = x;
  word_y = y;
  way_x = (omega arith, omega arith);
  way_y = (omega arith, omega arith);
}

start-IsStraight :
    (m : Mouse) (dx dy : ℤ) (dur now : ℕ)
    → IsStraight m
    → IsStraight (motion_start m linear dx dy dur now)
unfolding motion_start
start-IsStraight m dx dy dur now s = record {
  no_swap = s.no_swap;
  no_invert_x = s.no_invert_x;
  no_invert_y = s.no_invert_y;
}

timed_start :
    (filter : Option (ℤ × ℤ → ℤ × ℤ)) (m : Mouse) (dx dy : ℤ) (dur now : ℕ)
    → 1 ≤ dur
    → act_motion_move_dur filter m dx dy dur now ≡ (motion_start m linear dx dy dur now, [])
unfolding act_motion_move_dur
timed_start filter m dx dy dur now d = ground (arith, d)

started :
    (m : Mouse) (dx dy : ℤ) (dur now : ℕ)
    → ((motion_start m linear dx dy dur now).motion.emit_x ≡ pos 0)
      × ((motion_start m linear dx dy dur now).motion.emit_y ≡ pos 0)
      × ((motion_start m linear dx dy dur now).motion.ex ≡ dx)
      × ((motion_start m linear dx dy dur now).motion.ey ≡ dy)
unfolding motion_start
started m dx dy dur now = (refl, refl, refl, refl)

-- A timed move of a mouse whose axes are neither swapped nor inverted, with a duration that is not 0
-- and a displacement of two `int16_t`: whatever the times of the later ticks, as long as one of them
-- sees the duration elapsed, the moves that the ticks send add up to exactly the displacement, and the
-- program has ended.
pub linear_lands :
    (filter : Option (ℤ × ℤ → ℤ × ℤ)) (m : Mouse) (dx dy : ℤ) (dur now : ℕ) (ts : List ℕ)
    → IsStraight m
    → IsInt16 dx
    → IsInt16 dy
    → 1 ≤ dur
    → any_over (act_motion_move_dur filter m dx dy dur now).0.motion ts ≡ true
    → (total_x (ticks (act_motion_move_dur filter m dx dy dur now).0 ts).1 ≡ dx)
      × (total_y (ticks (act_motion_move_dur filter m dx dy dur now).0 ts).1 ≡ dy)
      × ((ticks (act_motion_move_dur filter m dx dy dur now).0 ts).0.motion.kind ≡ no_motion)
linear_lands filter m dx dy dur now ts s x y d a =
    let go = motion_start m linear dx dy dur now in
    let e = timed_start filter m dx dy dur now d in
    let b = started m dx dy dur now in
    let r = ticks go ts in
    let l =
      running_lands go ts (start_IsLinear m dx dy dur now x y) (start-IsStraight m dx dy dur now s)
        (subst (λ q. any_over q.0.motion ts ≡ true) e a) in
    rw e (
      sym (zero_add (total_x r.1)) ∙ (ap (λ q. q +ℤ total_x r.1) (sym b.0) ∙ (l.0 ∙ b.2)),
      sym (zero_add (total_y r.1)) ∙ (ap (λ q. q +ℤ total_y r.1) (sym b.1) ∙ (l.1 ∙ b.3)),
      l.2,
    )
