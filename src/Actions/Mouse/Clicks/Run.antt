-- ===== src/Actions/Mouse/Clicks/Run.antt =====
-- A click sequence from its start to its end, after the release of another one: src/actions.c, act_click
-- and act_click_tick.
use hurra_v.Base.{
  ℕ, zero, suc, ◌+◌, ◌-◌, ◌*◌, ◌%◌, ◌^◌, ◌≤◌, ◌<◌, ◌≡◌, refl, ap, ◌∙◌, sym, subst, arith, Bool,
  true, false, not, ◌&&◌, bit_or, every, every_lem,
}
use hurra_v.Base.{
  List, [], ◌∷◌, ◌++◌, append_assoc, ◌==◌, ltb, if◌then◌else◌, length, ltb→lt, Bool-cases, inl, inr,
}
use hurra_v.Timing.{time_deadline_reached}
use hurra_v.Actions.Mouse.{
  Mouse, Move, still, idle, release, btn_idx_to_mask, end_click, act_click, act_click_tick,
}
use hurra_v.Actions.Mouse.Clicks.Bits.{not_less}

-- A release, and for each of `n` further clicks a press and a release.
unfoldable pub clicks : ℕ → ℕ → ℕ → List Move
clicks up down zero = still up ∷ []
clicks up down (suc n) = still up ∷ still down ∷ clicks up down n

-- The ticks at the given times.
pub ticks : Mouse → List ℕ → Mouse × List Move
ticks m [] = (m, [])
ticks m (t ∷ ts) =
    let once = act_click_tick m t in let rest = ticks once.0 ts in (rest.0, once.1 ++ rest.1)

-- Each of the ticks comes at or after the deadline then set.
unfoldable pub all_due : Mouse → List ℕ → Bool
all_due m [] = true
all_due m (t ∷ ts) =
    let rest = all_due (act_click_tick m t).0 ts in time_deadline_reached t m.click.next_at && rest

again : ℕ → ℕ → Bool
unfolding btn_idx_to_mask
again b i =
    let mask = btn_idx_to_mask (i + 1) in
    (release (bit_or b mask) mask == release b mask)
    && (bit_or (release b mask) mask == bit_or b mask)

again_table : every 256 (λ b. every 5 (λ i. again b i)) ≡ true
unfolding every again btn_idx_to_mask
again_table = refl

again_lem :
    (b i : ℕ)
    → again b i ≡ true
    → (release (bit_or b (btn_idx_to_mask (i + 1))) (btn_idx_to_mask (i + 1))
        ≡ release b (btn_idx_to_mask (i + 1)))
      × (bit_or (release b (btn_idx_to_mask (i + 1))) (btn_idx_to_mask (i + 1))
          ≡ bit_or b (btn_idx_to_mask (i + 1)))
unfolding again
again_lem b i h = ground (arith, h)

-- Pressed, with `n` clicks to follow, and released, with `n` clicks to follow.
abbrev pressed_at : Mouse → ℕ → ℕ → ℕ → ℕ → ℕ → Mouse
pressed_at m button b n delay at = record m {
  buttons = bit_or b (btn_idx_to_mask button);
  click = record { button = button; remaining = n; delay_ms = delay; next_at = at; pressed = true };
}

abbrev released_at : Mouse → ℕ → ℕ → ℕ → ℕ → ℕ → Mouse
released_at m button b n delay at = record m {
  buttons = release b (btn_idx_to_mask button);
  click = record {
    button = button;
    remaining = n;
    delay_ms = delay;
    next_at = at;
    pressed = false;
  };
}

abbrev pub ended : Mouse → ℕ → ℕ → Mouse
ended m button b = record m { buttons = release b (btn_idx_to_mask button); click = idle }

add-ne : (i : ℕ) → (i + 1 == 0) ≡ false
add-ne i = ground arith

suc-ne : (n : ℕ) → (suc n == 0) ≡ false
suc-ne n = ground arith

suc_sub : (n : ℕ) → suc n - 1 ≡ n
suc_sub n = omega arith

tick_last :
    (m : Mouse) (i b delay at t : ℕ)
    → again b i ≡ true
    → time_deadline_reached t at ≡ true
    → act_click_tick (pressed_at m (i + 1) b 0 delay at) t
      ≡ (ended m (i + 1) b, still (release b (btn_idx_to_mask (i + 1))) ∷ [])
unfolding act_click_tick
tick_last m i b delay at t h due = rw (add-ne i, due, (again_lem b i h).0) refl

tick_release :
    (m : Mouse) (i b n delay at t : ℕ)
    → again b i ≡ true
    → time_deadline_reached t at ≡ true
    → act_click_tick (pressed_at m (i + 1) b (suc n) delay at) t ≡ (
      released_at m (i + 1) b n delay ((t + delay) % 2 ^ 32),
      still (release b (btn_idx_to_mask (i + 1))) ∷ [],
    )
unfolding act_click_tick
tick_release m i b n delay at t h due =
    rw (add-ne i, due, (again_lem b i h).0, suc-ne n, suc_sub n) refl

tick_press :
    (m : Mouse) (i b n delay at t : ℕ)
    → again b i ≡ true
    → time_deadline_reached t at ≡ true
    → act_click_tick (released_at m (i + 1) b n delay at) t ≡ (
      pressed_at m (i + 1) b n delay ((t + delay) % 2 ^ 32),
      still (bit_or b (btn_idx_to_mask (i + 1))) ∷ [],
    )
unfolding act_click_tick
tick_press m i b n delay at t h due = rw (add-ne i, due, (again_lem b i h).1) refl

both_true : (a b : Bool) → (a && b) ≡ true → (a ≡ true) × (b ≡ true)
both_true a b h = ground (arith, h)

due_now :
    (m : Mouse) (t : ℕ) (ts : List ℕ)
    → all_due m (t ∷ ts) ≡ true
    → (time_deadline_reached t m.click.next_at ≡ true) × (all_due (act_click_tick m t).0 ts ≡ true)
unfolding all_due
due_now m t ts d = both_true (time_deadline_reached t m.click.next_at) _ d

tick_then :
    (m : Mouse) (t : ℕ) (ts : List ℕ) (r : Mouse × List Move)
    → act_click_tick m t ≡ r
    → ticks m (t ∷ ts) ≡ ((ticks r.0 ts).0, r.1 ++ (ticks r.0 ts).1)
unfolding ticks
tick_then m t ts r e = rw e refl

abbrev RunsOut : Mouse → ℕ → ℕ → ℕ → Mouse → List ℕ → Type 0
RunsOut m i b n from ts = ticks from ts ≡ (
  ended m (i + 1) b,
  clicks (release b (btn_idx_to_mask (i + 1))) (bit_or b (btn_idx_to_mask (i + 1))) n,
)

runs_out :
    (m : Mouse) (i b n delay at : ℕ) (ts : List ℕ)
    → again b i ≡ true
    → length ts ≡ 2 * n + 1
    → all_due (pressed_at m (i + 1) b n delay at) ts ≡ true
    → RunsOut m i b n (pressed_at m (i + 1) b n delay at) ts
unfolding clicks ticks
runs_out m i b zero delay at [] h l d = absurd (omega arith)
runs_out m i b zero delay at (t ∷ t' ∷ ts) h l d = absurd (omega arith)
runs_out m i b zero delay at (t ∷ []) h l d =
    let now = due_now (pressed_at m (i + 1) b zero delay at) t [] d in
    tick_then (pressed_at m (i + 1) b zero delay at) t [] _ (tick_last m i b delay at t h now.0)
runs_out m i b (suc n) delay at [] h l d = absurd (omega arith)
runs_out m i b (suc n) delay at (t ∷ []) h l d = absurd (omega arith)
runs_out m i b (suc n) delay at (t ∷ t' ∷ ts) h l d =
    let from = pressed_at m (i + 1) b (suc n) delay at in
    let up = released_at m (i + 1) b n delay ((t + delay) % 2 ^ 32) in
    let down = pressed_at m (i + 1) b n delay ((t' + delay) % 2 ^ 32) in
    let one = due_now from t (t' ∷ ts) d in
    let first = tick_release m i b n delay at t h one.0 in
    let two = due_now up t' ts (subst (λ q. all_due q.0 (t' ∷ ts) ≡ true) first one.1) in
    let second = tick_press m i b n delay ((t + delay) % 2 ^ 32) t' h two.0 in
    let rest =
      runs_out m i b n delay ((t' + delay) % 2 ^ 32) ts h (omega arith)
        (subst (λ q. all_due q.0 ts ≡ true) second two.1) in
    tick_then from t (t' ∷ ts) _ first
    ∙ (ap (λ (q : Mouse × List Move). (q.0, still up.buttons ∷ q.1)) (tick_then up t' ts _ second)
        ∙ ap (λ (q : Mouse × List Move). (q.0, still up.buttons ∷ still down.buttons ∷ q.1)) rest)

again_holds : (b i : ℕ) → b < 256 → i < 5 → again b i ≡ true
again_holds b i hb hi = every_lem 5 _ i (every_lem 256 _ b again_table hb) hi

-- The byte stays a byte when a button is let go.
byte_table : every 256 (λ b. every 256 (λ k. ltb (release b (btn_idx_to_mask k)) 256)) ≡ true
unfolding every btn_idx_to_mask
byte_table = refl

mask_large : (k : ℕ) → 256 ≤ k → btn_idx_to_mask k ≡ 0
unfolding btn_idx_to_mask
mask_large k h = ground arith

mask_zero : btn_idx_to_mask 0 ≡ 0
unfolding btn_idx_to_mask
mask_zero = refl

byte_small : (b k : ℕ) → b < 256 → k < 256 → release b (btn_idx_to_mask k) < 256
byte_small b k hb hk = ltb→lt _ 256 (every_lem 256 _ k (every_lem 256 _ b byte_table hb) hk)

release-lt : (b k : ℕ) → b < 256 → release b (btn_idx_to_mask k) < 256
release-lt b k hb = elim (Bool-cases (ltb k 256)) [
  | inl h ↦ byte_small b k hb (ltb→lt k 256 h)
  | inr h ↦
      subst (λ q. release b q < 256) (mask_zero ∙ sym (mask_large k (not_less k 256 h)))
        (byte_small b 0 hb (omega arith))
]

pub end_click-lt : (m : Mouse) (mask : ℕ) → m.buttons < 256 → (end_click m mask).0.buttons < 256
unfolding end_click
end_click-lt m mask h = ground (arith, h, release-lt m.buttons m.click.button h)

not_none : (a : ℕ) → not (a == 0) ≡ true → (a == 0) ≡ false
not_none a h = ground (arith, h)

masks : every 5 (λ i. not (btn_idx_to_mask (i + 1) == 0)) ≡ true
unfolding every btn_idx_to_mask
masks = refl

add_sub : (n : ℕ) → n + 1 - 1 ≡ n
add_sub n = omega arith

mask_some : (i : ℕ) → i < 5 → (btn_idx_to_mask (i + 1) == 0) ≡ false
mask_some i h = not_none _ (every_lem 5 (λ i. not (btn_idx_to_mask (i + 1) == 0)) i masks h)

abbrev min_delay : ℕ → ℕ
min_delay delay_ms = if ltb 0x7fffffff delay_ms then 0x7fffffff else delay_ms

-- Any press first ends what is still down.
click_starts :
    (m : Mouse) (i n delay_ms now : ℕ)
    → i < 5
    → act_click m (i + 1) (n + 1) delay_ms now ≡ (
      pressed_at
          (end_click m (btn_idx_to_mask (i + 1))).0
          (i + 1)
          (end_click m (btn_idx_to_mask (i + 1))).0.buttons
          n
          (min_delay delay_ms)
          ((now + min_delay delay_ms) % 2 ^ 32),
      (end_click m (btn_idx_to_mask (i + 1))).1
          ++ (still
                (bit_or (end_click m (btn_idx_to_mask (i + 1))).0.buttons (btn_idx_to_mask (i + 1)))
              ∷ []),
    )
unfolding act_click
click_starts m i n delay_ms now h = rw (mask_some i h, add-ne n, add_sub n) refl

-- The whole run, after what `end_click` does.
pub click_runs :
    (m : Mouse) (i n delay_ms now : ℕ) (ts : List ℕ)
    → m.buttons < 256
    → i < 5
    → length ts ≡ 2 * n + 1
    → all_due (act_click m (i + 1) (n + 1) delay_ms now).0 ts ≡ true
    → ((ticks (act_click m (i + 1) (n + 1) delay_ms now).0 ts).0
        ≡ ended
            (end_click m (btn_idx_to_mask (i + 1))).0
            (i + 1)
            (end_click m (btn_idx_to_mask (i + 1))).0.buttons)
      × ((act_click m (i + 1) (n + 1) delay_ms now).1
            ++ (ticks (act_click m (i + 1) (n + 1) delay_ms now).0 ts).1
          ≡ (end_click m (btn_idx_to_mask (i + 1))).1
            ++ (still (
                  bit_or
                    (end_click m (btn_idx_to_mask (i + 1))).0.buttons
                    (btn_idx_to_mask (i + 1)))
                ∷ clicks
                    (release
                      (end_click m (btn_idx_to_mask (i + 1))).0.buttons
                      (btn_idx_to_mask (i + 1)))
                    (bit_or
                      (end_click m (btn_idx_to_mask (i + 1))).0.buttons
                      (btn_idx_to_mask (i + 1)))
                    n))
click_runs m i n delay_ms now ts hb hi l d =
    let base = end_click m (btn_idx_to_mask (i + 1)) in
    let start = click_starts m i n delay_ms now hi in
    let fine = again_holds base.0.buttons i (end_click-lt m (btn_idx_to_mask (i + 1)) hb) hi in
    let run =
      runs_out base.0 i base.0.buttons n (min_delay delay_ms) ((now + min_delay delay_ms) % 2 ^ 32)
        ts fine l (subst (λ q. all_due q.0 ts ≡ true) start d) in
    let down = still (bit_or base.0.buttons (btn_idx_to_mask (i + 1))) in
    rw start (
      ap (λ (q : Mouse × List Move). q.0) run,
      append_assoc base.1 (down ∷ []) _
          ∙ ap (λ (q : Mouse × List Move). base.1 ++ (down ∷ q.1)) run,
    )
