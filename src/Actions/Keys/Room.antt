-- ===== src/Actions/Keys/Room.antt =====
-- The table of scheduled releases has as many entries as there can be keys down: it never overflows.
use hurra_v.Base.{ℕ, ◌+◌, ◌%◌, ◌^◌, ◌≤◌, ◌<◌, ◌≡◌, refl, arith, true}
use hurra_v.Base.{
  Option, none, some, List, [], ◌∷◌, ◌++◌, ◌==◌, if◌then◌else◌, length, length-append,
}
use hurra_v.Actions.Keys.{
  Keyboard, Release, is_modifier, hold, act_kb_isdown, act_kb_press, kb_cancel_release,
}
use hurra_v.Actions.Keys.Slots
use hurra_v.Actions.Keys.Slots.{in_slot-eq-count}
use hurra_v.Actions.Keys.Releases
use hurra_v.Actions.Keys.Releases.{count-kb_cancel_release}
use hurra_v.Actions.Keys.Held.{isdown-plain, hold_lem}
use hurra_v.Actions.Keys.Ops.{IsSafe, scheduled, scheduled-IsSafe, held-IsSafe}

-- The entries of the eight modifiers, and the other entries.
abbrev modifiers : List Release → ℕ
modifiers rs =
    Releases.count 0xe0 rs
    + Releases.count 0xe1 rs
    + Releases.count 0xe2 rs
    + Releases.count 0xe3 rs
    + Releases.count 0xe4 rs
    + Releases.count 0xe5 rs
    + Releases.count 0xe6 rs
    + Releases.count 0xe7 rs

others : List Release → ℕ
others [] = 0
others (r ∷ rs) = (if is_modifier r.key then 0 else 1) + others rs

modifier_keeps_others : (rs : List Release) → modifiers rs + others rs ≡ length rs
unfolding others is_modifier
modifier_keeps_others [] = refl
modifier_keeps_others (r ∷ rs) = ground (arith, modifier_keeps_others rs)

-- The entries of the keys in the slots, slot by slot.
in_slots : List ℕ → List Release → ℕ
in_slots [] rs = 0
in_slots (k ∷ ks) rs = (if k == 0 then 0 else Releases.count k rs) + in_slots ks rs

in_slots-nil : (ks : List ℕ) → in_slots ks [] ≡ 0
unfolding in_slots
in_slots-nil [] = refl
in_slots-nil (k ∷ ks) = ground (arith, in_slots-nil ks)

in_slots-cons :
    (ks : List ℕ) (r : Release) (rs : List Release)
    → in_slots ks (r ∷ rs) ≡ (if r.key == 0 then 0 else Slots.count r.key ks) + in_slots ks rs
unfolding in_slots
in_slots-cons [] r rs = ground arith
in_slots-cons (k ∷ ks) r rs = ground (arith, in_slots-cons ks r rs)

module _ (kb : Keyboard) (s : IsSafe kb) where
  others-le :
      (rs : List Release)
      → ((q : ℕ) → 0 < Releases.count q rs → 0 < Releases.count q kb.releases)
      → others rs ≤ in_slots kb.keys rs
  unfolding others
  others-le [] h = omega arith
  others-le (r ∷ rs) h =
      let l = s.live r.key (h r.key (ground arith)) in
      let rest = others-le rs (λ q c. h q (omega (arith, c))) in
      ground (arith, in_slots-cons kb.keys r rs, rest, l.0, l.1, isdown-plain kb r.key)

  in_slots-le : (ks : List ℕ) → in_slots ks kb.releases ≤ length ks
  unfolding in_slots
  in_slots-le [] = omega arith
  in_slots-le (k ∷ ks) = ground (arith, s.once k, in_slots-le ks)

  pub releases_fit : length kb.releases ≤ 14
  releases_fit = omega (
    arith,
    modifier_keeps_others kb.releases,
    others-le kb.releases (λ q h. h),
    in_slots-le kb.keys,
    s.valid.six,
    s.once 0xe0,
    s.once 0xe1,
    s.once 0xe2,
    s.once 0xe3,
    s.once 0xe4,
    s.once 0xe5,
    s.once 0xe6,
    s.once 0xe7,
  )

-- A press that is accepted always schedules its release, after the delay, as the last entry; the
-- other keys' entries stay. (A delay over `INT32_MAX` is cut to it.)
pub press_schedules :
    (kb : Keyboard) (key delay_ms now : ℕ)
    → IsSafe kb
    → 0 < key
    → delay_ms ≤ 0x7fffffff
    → 0 < length (act_kb_press kb key delay_ms now).1
    → (act_kb_press kb key delay_ms now).0.releases
      ≡ kb_cancel_release key kb.releases
        ++ (record { key = key; at = (now + delay_ms) % 2 ^ 32 } ∷ [])
unfolding act_kb_press
press_schedules kb key delay_ms now s pos short done = go (hold kb key) refl
  where
    go :
        (o : Option Keyboard)
        → hold kb key ≡ o
        → (act_kb_press kb key delay_ms now).0.releases
          ≡ kb_cancel_release key kb.releases
            ++ (record { key = key; at = (now + delay_ms) % 2 ^ 32 } ∷ [])
    go none e = absurd (ground (arith, e, done, pos))
    go (some held) e =
        let h = hold_lem kb key held s.valid (omega (arith, pos)) e in
        let d : act_kb_isdown held key ≡ true = ground (arith, h.adds key (omega (arith, pos))) in
        let entry : Release = record { key = key; at = (now + delay_ms) % 2 ^ 32 } in
        let fit = releases_fit (scheduled held key entry.at) (
          scheduled-IsSafe held key entry.at (held-IsSafe kb key held s h) (omega (arith, pos))
            d) in
        let rs = kb_cancel_release key held.releases in
        let room : length rs < 14 = omega (arith, fit, length-append {0} rs (entry ∷ [])) in
        ground (arith, e, pos, short, room, h.releases)
