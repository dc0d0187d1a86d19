-- ===== src/Actions/Mouse/Clicks/Bits.antt =====
-- The buttons of a click sequence by their numbers: src/actions.c, btn_idx_to_mask and act_click.
use hurra_v.Base.{
  ℕ, ◌+◌, ◌-◌, ◌%◌, ◌^◌, ◌≤◌, ◌<◌, ◌≡◌, refl, ap, sym, subst, arith, Bool, true, false, not, ◌&&◌,
  bit_or, every, every_lem,
}
use hurra_v.Base.{[], ◌∷◌, ◌==◌, ltb, leb, ◌/◌, if◌then◌else◌, ltb→lt, Bool-cases, inl, inr}
use hurra_v.Actions.Mouse.{Mouse, still, release, btn_idx_to_mask, end_click}

pub not_less : (a b : ℕ) → ltb a b ≡ false → b ≤ a
not_less a b h = ground (arith, h)

mask_over : (k : ℕ) → 6 ≤ k → btn_idx_to_mask k ≡ 0
unfolding btn_idx_to_mask
mask_over k h = ground arith

-- A button byte with bit `i` cleared, and set.
abbrev pub without : ℕ → ℕ → ℕ
without b i = if b / 2 ^ i % 2 == 1 then b - 2 ^ i else b

abbrev pub with_bit : ℕ → ℕ → ℕ
with_bit b i = if b / 2 ^ i % 2 == 1 then b else b + 2 ^ i

bits : ℕ → ℕ → Bool
unfolding btn_idx_to_mask
bits b i =
    (release b (btn_idx_to_mask (i + 1)) == without b i)
    && (bit_or b (btn_idx_to_mask (i + 1)) == with_bit b i)

bits_table : every 256 (λ b. every 5 (λ i. bits b i)) ≡ true
unfolding every bits btn_idx_to_mask
bits_table = refl

pub bits_lem :
    (b i : ℕ)
    → b < 256
    → i < 5
    → (release b (btn_idx_to_mask (i + 1)) ≡ without b i)
      × (bit_or b (btn_idx_to_mask (i + 1)) ≡ with_bit b i)
unfolding bits
bits_lem b i hb hi =
    let h : bits b i ≡ true = every_lem 5 _ i (every_lem 256 _ b bits_table hb) hi in
    ground (arith, h)

-- A sequence of another button than `i + 1` has not ended, and its button is down.
abbrev pub unfinished : Mouse → ℕ → Bool
unfinished m i =
    m.click.pressed && leb 1 m.click.button && leb m.click.button 5 && not (m.click.button == i + 1)

-- The buttons that are down when the clicks of button `i + 1` begin.
abbrev pub before : Mouse → ℕ → ℕ
before m i = if unfinished m i then without m.buttons (m.click.button - 1) else m.buttons

-- The test of `end_click` on a button that is down, and what it means for the buttons from 0 to 5.
ends_first : ℕ → ℕ → Bool
unfolding btn_idx_to_mask
ends_first k i =
    not (k == 0)
    && not (btn_idx_to_mask k == 0)
    && not (btn_idx_to_mask k == btn_idx_to_mask (i + 1))

other : ℕ → ℕ → Bool
other k i = leb 1 k && leb k 5 && not (k == i + 1)

same_test : Bool → Bool → Bool
same_test a b = if a then b else not b

test_table : every 6 (λ k. every 5 (λ i. same_test (ends_first k i) (other k i))) ≡ true
unfolding every ends_first other same_test btn_idx_to_mask
test_table = refl

same_test_lem : (a b : Bool) → same_test a b ≡ true → a ≡ b
unfolding same_test
same_test_lem true b h = sym h
same_test_lem false true h = h
same_test_lem false false h = refl

ends_first-other : (k i : ℕ) → i < 5 → ends_first k i ≡ other k i
unfolding ends_first other
ends_first-other k i hi = elim (Bool-cases (ltb k 6)) [
  | inl h ↦
      same_test_lem (ends_first k i) (other k i)
        (every_lem 5 _ i (every_lem 6 _ k test_table (ltb→lt k 6 h)) hi)
  | inr h ↦ let e : btn_idx_to_mask k ≡ 0 = mask_over k (not_less k 6 h) in rw e (ground (arith, h))
]

move_test :
    (p a c d x y z : Bool) → (a && c && d) ≡ (x && y && z) → (a && p && c && d) ≡ (p && x && y && z)
move_test p a c d x y z h = ground (arith, h)

pressed_test :
    (p : Bool) (k i : ℕ)
    → i < 5
    → (not (k == 0)
        && p
        && not (btn_idx_to_mask k == 0)
        && not (btn_idx_to_mask k == btn_idx_to_mask (i + 1)))
      ≡ (p && leb 1 k && leb k 5 && not (k == i + 1))
unfolding ends_first other
pressed_test p k i hi =
    move_test p _ _ _ (leb 1 k) (leb k 5) (not (k == i + 1)) (ends_first-other k i hi)

old_bit :
    (b k own : ℕ) (pressed : Bool)
    → b < 256
    → (pressed && leb 1 k && leb k 5 && not (k == own)) ≡ true
    → release b (btn_idx_to_mask k) ≡ without b (k - 1)
old_bit b k own pressed hb h =
    let e : k - 1 + 1 ≡ k = ground (arith, h) in
    subst (λ q. release b (btn_idx_to_mask q) ≡ without b (k - 1)) e
      (bits_lem b (k - 1) hb (ground (arith, h))).0

-- `end_click` in terms of the button numbers.
pub end_click_lem :
    (m : Mouse) (i : ℕ)
    → m.buttons < 256
    → i < 5
    → end_click m (btn_idx_to_mask (i + 1))
      ≡ (record m { buttons = before m i }, if unfinished m i then still (before m i) ∷ [] else [])
unfolding end_click
end_click_lem m i hb hi =
    let t = pressed_test m.click.pressed m.click.button i hi in
    elim (Bool-cases (unfinished m i)) [
      | inl h ↦
          rw (t, h)
            (ap (λ (q : ℕ). (record m { buttons = q }, still q ∷ []))
              (old_bit m.buttons m.click.button (i + 1) m.click.pressed hb h))
      | inr h ↦ rw (t, h) refl
    ]
