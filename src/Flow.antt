-- ===== src/Flow.antt =====
-- From a text command on the command core to the merge of the relay core: src/ferrum.c, src/actions.c,
-- src/kmbox_cmd.c and src/usb_merge.c together.
mod Tests
use hurra_v.Base.{ℕ, ◌+◌, ◌%◌, ◌^◌, ◌-◌, ◌≡◌, refl, ap, ◌∙◌, arith, Bool, true, false, Option, none}
use hurra_v.Base.{List, [], ◌∷◌, ◌++◌, take, if◌then◌else◌}
use hurra_v.Base.Int.{ℤ, pos, negsuc, ◌+ℤ◌, ◌-ℤ◌, limit, of_word, to_word, wrap}
use hurra_v.Base.Text.{ascii}
use hurra_v.Actions.Mouse.{Mouse, Move, transform, act_move, act_move_raw}
use hurra_v.Kmbox.V3f.{inject_mouse, record_of}
use hurra_v.Hid.Field.Whole.{Fits}
use hurra_v.Merge.{Merge}
use hurra_v.Merge.Accum.{merge_apply_mouse, usb_merge_apply_record}
use hurra_v.Merge.Accum.Decode.{apply_record-record_of}
use hurra_v.Ferrum.Args.Prints.{print}
use hurra_v.Ferrum.Commands.{Ferrum, Effect, moved, Outcome}
use hurra_v.Ferrum.Line.{ferrum_reset, feed}
use hurra_v.Ferrum.Line.Printed.{IsShort, move_line}

-- The call of `kmbox_inject_mouse` that an effect is.
abbrev pub apply_effect : Merge → ℕ → Effect → Merge
apply_effect m now (moved v) =
    let r = record_of (inject_mouse v.dx v.dy v.buttons v.wheel) in
    usb_merge_apply_record m r.tag (take 7 r.b) now
apply_effect m now _ = m

abbrev pub apply_effects : Merge → ℕ → List Effect → Merge
apply_effects m now [] = m
apply_effects m now (e ∷ es) = apply_effects (apply_effect m now e) now es

wrap-Fits : (v : ℤ) → Fits true (wrap 16 v)
wrap-Fits (pos n) = ground arith
wrap-Fits (negsuc n) = ground arith

choose-IsShort : (b : Bool) (v w : ℤ) → IsShort v → IsShort w → IsShort (if b then v else w)
choose-IsShort true v w h k = h
choose-IsShort false v w h k = k

transform-IsShort :
    (u : Mouse) (x y : ℤ)
    → IsShort x
    → IsShort y
    → IsShort (transform u x y).0 × IsShort (transform u x y).1
unfolding transform
transform-IsShort u x y h k =
    let a = if u.swap_xy then y else x in
    let b = if u.swap_xy then x else y in
    (
      choose-IsShort u.invert_x (wrap 16 (pos 0 -ℤ a)) a (wrap-Fits (pos 0 -ℤ a))
          (choose-IsShort u.swap_xy y x k h),
      choose-IsShort u.invert_y (wrap 16 (pos 0 -ℤ b)) b (wrap-Fits (pos 0 -ℤ b))
          (choose-IsShort u.swap_xy x y h k),
    )

-- The two values of a move after the swap and the inversions: a negation of 16 bits.
abbrev pub turned : Bool → Bool → ℤ → ℤ → ℤ
turned swap invert own other =
    let v = if swap then other else own in if invert then wrap 16 (pos 0 -ℤ v) else v

-- `km.move(x, y)` with two values of 16 bits and no streaming filter, at once on an empty buffer while no
-- catch of motion is open: what it injects, packed, cut to the bytes that the link carries, and applied on
-- the other side, adds the two values, swapped and inverted as the switches say, to the injected motion,
-- where each sum is cut to at most 4096 in magnitude; the wheel that waits is cut to 127, the injected
-- buttons are those that are down, and the next report is marked as due. Nothing else of the merge changes.
pub move_reaches_merge :
    (f : Ferrum) (m : Merge) (x y : ℤ) (now later : ℕ)
    → f.catch.active ≡ false
    → IsShort x
    → IsShort y
    → apply_effects m later
        (feed none (ferrum_reset f) (print (ascii "move") (x ∷ y ∷ []) ++ (b'\n' ∷ [])) now).1
      ≡ record m {
        inject = record m.inject {
          mouse_buttons = f.actions.mouse.buttons;
          mouse_dx =
              limit
                (pos 4096)
                (m.inject.mouse_dx +ℤ turned f.actions.mouse.swap_xy f.actions.mouse.invert_x x y);
          mouse_dy =
              limit
                (pos 4096)
                (m.inject.mouse_dy +ℤ turned f.actions.mouse.swap_xy f.actions.mouse.invert_y y x);
          mouse_wheel = limit (pos 127) (m.inject.mouse_wheel +ℤ pos 0);
          mouse_dirty = true;
        };
      }
unfolding act_move act_move_raw usb_merge_apply_record transform merge_apply_mouse
move_reaches_merge f m x y now later e h k =
    let t = transform f.actions.mouse x y in
    let s = transform-IsShort f.actions.mouse x y h k in
    ap (λ (q : Outcome). apply_effects m later q.1) (move_line none f x y now e h k)
    ∙ (apply_record-record_of m (inject_mouse t.0 t.1 f.actions.mouse.buttons (pos 0)) later
        (s.0, s.1, (omega arith, omega arith))).1
