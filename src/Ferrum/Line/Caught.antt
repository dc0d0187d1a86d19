-- ===== src/Ferrum/Line/Caught.antt =====
-- A request to catch the motion is answered with its sum.
use hurra_v.Base.{ℕ, ◌+◌, ◌%◌, ◌^◌, ◌≡◌, refl, ap, ◌∙◌, true, false}
use hurra_v.Base.{List, [], ◌∷◌, if◌then◌else◌}
use hurra_v.Base.Int.{ℤ, pos, ◌+ℤ◌, lt_int, to_word}
use hurra_v.Timing.{time_deadline_reached}
use hurra_v.Ferrum.Commands.{Ferrum, emit_catch_result, emit_pair, catch_for}
use hurra_v.Ferrum.Line.{ferrum_tick}
use hurra_v.Ferrum.Notify.{ferrum_notify_axes}

-- A motion that the merge reports.
pub record Motion : Type 0 where
  pub dx : ℤ
  pub dy : ℤ
  pub scroll : ℤ

abbrev pub notify_all : Ferrum → List Motion → Ferrum
notify_all f [] = f
notify_all f (v ∷ vs) = notify_all (ferrum_notify_axes f v.dx v.dy v.scroll).0 vs

abbrev pub sum_x : ℤ → List Motion → ℤ
sum_x a [] = a
sum_x a (v ∷ vs) = sum_x (a +ℤ v.dx) vs

abbrev pub sum_y : ℤ → List Motion → ℤ
sum_y a [] = a
sum_y a (v ∷ vs) = sum_y (a +ℤ v.dy) vs

-- With an open request until `at`, and these sums.
abbrev open_with : Ferrum → ℕ → ℤ → ℤ → Ferrum
open_with f at x y = record f {
  catch = record { active = true; deadline = at; accum_x = x; accum_y = y };
}

sums :
    (f : Ferrum) (at : ℕ) (x y : ℤ) (vs : List Motion)
    → notify_all (open_with f at x y) vs ≡ open_with f at (sum_x x vs) (sum_y y vs)
unfolding ferrum_notify_axes
sums f at x y [] = refl
sums f at x y (v ∷ vs) = sums f at (x +ℤ v.dx) (y +ℤ v.dy) vs

due :
    (f : Ferrum) (at now : ℕ) (x y : ℤ)
    → ferrum_tick (open_with f at x y) now ≡ (
        if time_deadline_reached now at
        then (
          record f {
            catch = record { active = false; deadline = at; accum_x = pos 0; accum_y = pos 0 };
          },
          emit_pair x y,
        )
        else (open_with f at x y, []))
unfolding ferrum_tick emit_catch_result
due f at now x y = refl

abbrev pub cut_duration : ℤ → ℕ
cut_duration dur =
    if lt_int dur (pos 0) then 0 else if lt_int (pos 1000) dur then 1000 else to_word 32 dur

-- A request to catch the motion for a while, then any motions of the mouse, then a tick: before the
-- request runs out, which is after a second at the latest, nothing is sent and the request stays open with
-- the sums so far; from then on the tick sends the sums of the motions, once, since it closes the request.
pub catch_answers :
    (f : Ferrum) (dur : ℤ) (start now : ℕ) (vs : List Motion)
    → ferrum_tick (notify_all (catch_for f dur start).0 vs) now ≡ (
        let at = (start + cut_duration dur) % 2 ^ 32 in
        if time_deadline_reached now at
        then (
          record f {
            catch = record { active = false; deadline = at; accum_x = pos 0; accum_y = pos 0 };
          },
          emit_pair (sum_x (pos 0) vs) (sum_y (pos 0) vs),
        )
        else (
          record f {
            catch = record {
              active = true;
              deadline = at;
              accum_x = sum_x (pos 0) vs;
              accum_y = sum_y (pos 0) vs;
            };
          },
          [],
        ))
unfolding catch_for
catch_answers f dur start now vs =
    let at = (start + cut_duration dur) % 2 ^ 32 in
    ap (λ (q : Ferrum). ferrum_tick q now) (sums f at (pos 0) (pos 0) vs)
    ∙ due f at now (sum_x (pos 0) vs) (sum_y (pos 0) vs)
