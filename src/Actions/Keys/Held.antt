-- ===== src/Actions/Keys/Held.antt =====
-- Which keys are down, before and after a key is held or let go.
use hurra_v.Base.{
  ℕ, ◌-◌, ◌%◌, ◌≤◌, ◌<◌, ◌≡◌, ◌≢◌, refl, sym, ap, ◌∙◌, subst, arith, true, false, ◌&&◌, ◌||◌, not,
}
use hurra_v.Base.{
  none, some, List, ltb, ◌==◌, if◌then◌else◌, length, set, get_or, length-set, Bool-cases, inl, inr,
  bit_or, bit_and,
}
use hurra_v.Actions.Keys.{
  Keyboard, is_modifier, modifier_bit, kb_insert, clear_slot, hold, let_go, act_kb_isdown,
}
use hurra_v.Actions.Keys.Bits.{has_bit-bit_or, has_bit-bit_and, bit_and-lt}
use hurra_v.Actions.Keys.Slots.{
  count, in_slot-eq-count, count-set, was_there, no_room, went_in, Inserted-kb_insert,
  count-clear_slot, length-clear_slot,
}

-- Six slots, each key in one of them at most, and the modifiers in their own byte.
pub record IsValid (kb : Keyboard) : Type 0 where
  pub six : length kb.keys ≡ 6
  pub byte : kb.modifier < 256
  pub single : (q : ℕ) → q ≢ 0 → count q kb.keys ≤ 1
  pub plain : (q : ℕ) → is_modifier q ≡ true → count q kb.keys ≡ 0

-- The keys that are down, besides one.
abbrev pub Adds : Keyboard → ℕ → Keyboard → Type 0
Adds kb key held = (q : ℕ) → q ≢ 0 → act_kb_isdown held q ≡ (key == q || act_kb_isdown kb q)

abbrev pub Drops : Keyboard → ℕ → Keyboard → Type 0
Drops kb key up = (q : ℕ) → q ≢ 0 → act_kb_isdown up q ≡ (not (key == q) && act_kb_isdown kb q)

modifier_below : (q : ℕ) → is_modifier q ≡ true → (0xe0 ≤ q) × (q - 0xe0 < 8)
unfolding is_modifier
modifier_below q h = ground arith

modifier_ne : (q : ℕ) → is_modifier q ≡ true → q ≢ 0
unfolding is_modifier
modifier_ne q h = ground (arith, h)

same_modifier : (a b : ℕ) → a ≡ b → is_modifier a ≡ is_modifier b
same_modifier a b e = ap is_modifier e

pub isdown-plain :
    (kb : Keyboard) (q : ℕ) → is_modifier q ≡ false → act_kb_isdown kb q ≡ ltb 0 (count q kb.keys)
unfolding act_kb_isdown
isdown-plain kb q h = rw h (in_slot-eq-count q kb.keys)

hold_modifier :
    (kb : Keyboard) (key : ℕ)
    → IsValid kb
    → is_modifier key ≡ true
    → (hold kb key ≡ some (record kb { modifier = bit_or kb.modifier (modifier_bit key) % 256 }))
      × Adds kb key (record kb { modifier = bit_or kb.modifier (modifier_bit key) % 256 })
unfolding hold act_kb_isdown is_modifier
hold_modifier kb key v h = (rw h refl, λ q ne. goal q ne)
  where
    goal : Adds kb key (record kb { modifier = bit_or kb.modifier (modifier_bit key) % 256 })
    goal q ne =
        let k = modifier_below key h in
        ground (arith, h, has_bit-bit_or kb.modifier (key - 0xe0) (q - 0xe0) v.byte k.1)

-- A key that is held is down, no other key changes, and the state stays valid.
pub record Holds (kb : Keyboard) (key : ℕ) (held : Keyboard) : Type 0 where
  pub adds : Adds kb key held
  pub valid : IsValid held
  pub releases : held.releases ≡ kb.releases

hold_slot :
    (kb : Keyboard) (key : ℕ)
    → IsValid kb
    → key ≢ 0
    → is_modifier key ≡ false
    → (ks : List ℕ) → kb_insert key kb.keys ≡ (ks, true)
    → length ks ≡ length kb.keys
    → ((q : ℕ) → q ≢ 0 → count q ks ≡ (if key == q then 1 else count q kb.keys))
    → (hold kb key ≡ some (record kb { keys = ks })) × Holds kb key (record kb { keys = ks })
unfolding hold act_kb_isdown
hold_slot kb key v ne m ks e len c = (
  ground (arith, m, e),
  record {
    adds = λ q qz. ground (arith, m, in_slot-eq-count q ks, in_slot-eq-count q kb.keys, c q qz);
    valid = record {
      six = len ∙ v.six;
      byte = v.byte;
      single = λ q qz. ground (arith, c q qz, v.single q qz);
      plain = λ q h. ground (arith, m, c q (modifier_ne q h), v.plain q h, h, same_modifier key q);
    };
    releases = refl;
  },
)

counted :
    (ks : List ℕ) (i key : ℕ)
    → count key ks ≡ 0
    → i < length ks
    → get_or ks i 1 ≡ 0
    → (q : ℕ) → q ≢ 0
    → count q (set ks i key) ≡ (if key == q then 1 else count q ks)
counted ks i key z h f q ne = ground (arith, count-set q ks i key h, z, f)

there :
    (ks : List ℕ) (key : ℕ)
    → 0 < count key ks
    → count key ks ≤ 1
    → (q : ℕ) → count q ks ≡ (if key == q then 1 else count q ks)
there ks key h s q = ground arith

some_inj : {a b : Keyboard} → some a ≡ some b → a ≡ b
some_inj e = cc

nothing_found : {a : Keyboard} → none ≡ some a → ⊥
nothing_found e = cc

hold-none :
    (kb : Keyboard) (key : ℕ)
    → is_modifier key ≡ false
    → kb_insert key kb.keys ≡ (kb.keys, false)
    → hold kb key ≡ none
unfolding hold
hold-none kb key m r = ground (arith, m, r)

pub hold_lem :
    (kb : Keyboard) (key : ℕ) (held : Keyboard)
    → IsValid kb
    → key ≢ 0
    → hold kb key ≡ some held
    → Holds kb key held
hold_lem kb key held v ne e = elim (Bool-cases (is_modifier key)) [
  | inl m ↦
      let h = hold_modifier kb key v m in
      subst (Holds kb key) (some_inj (sym h.0 ∙ e)) (record {
        adds = h.1;
        valid = record { six = v.six; byte = omega arith; single = v.single; plain = v.plain };
        releases = refl;
      })
  | inr m ↦ elim (Inserted-kb_insert key kb.keys) [
    | was_there c r ↦
        let h =
          hold_slot kb key v ne m kb.keys r refl
            (λ q qz. there kb.keys key c (v.single key ne) q) in
        subst (Holds kb key) (some_inj (sym h.0 ∙ e)) h.1
    | no_room c z r ↦ absurd (nothing_found (sym (hold-none kb key m r) ∙ e))
    | went_in i c l f r ↦
        let h =
          hold_slot kb key v ne m (set kb.keys i key) r (length-set kb.keys i key)
            (counted kb.keys i key c l f) in
        subst (Holds kb key) (some_inj (sym h.0 ∙ e)) h.1
  ]
]

-- A key is refused only where the six slots hold six other keys.
pub hold_refused :
    (kb : Keyboard) (key : ℕ)
    → hold kb key ≡ none
    → (is_modifier key ≡ false) × (count key kb.keys ≡ 0) × (count 0 kb.keys ≡ 0)
unfolding hold
hold_refused kb key e = elim (Inserted-kb_insert key kb.keys) [
  | was_there c r ↦ absurd (ground (arith, e, r))
  | no_room c z r ↦ (ground (arith, e), c, z)
  | went_in i c l f r ↦ absurd (ground (arith, e, r))
]

let_go_modifier :
    (kb : Keyboard) (key : ℕ)
    → IsValid kb
    → is_modifier key ≡ true
    → Drops kb key (record kb { modifier = bit_and kb.modifier (255 - modifier_bit key) })
unfolding act_kb_isdown is_modifier
let_go_modifier kb key v h q ne =
    ground (
      arith,
      h,
      has_bit-bit_and kb.modifier (key - 0xe0) (q - 0xe0) v.byte (modifier_below key h).1,
    )

pub let_go_lem :
    (kb : Keyboard) (key : ℕ)
    → IsValid kb
    → Drops kb key (let_go kb key)
      × IsValid (let_go kb key)
      × ((let_go kb key).releases ≡ kb.releases)
unfolding let_go act_kb_isdown
let_go_lem kb key v = elim (Bool-cases (is_modifier key)) [
  | inl m ↦ rw m (
    let_go_modifier kb key v m,
    record {
      six = v.six;
      byte = bit_and-lt kb.modifier (key - 0xe0) v.byte (modifier_below key m).1;
      single = v.single;
      plain = v.plain;
    },
    refl,
  )
  | inr m ↦ rw m (
    λ q ne. ground (
      arith,
      m,
      in_slot-eq-count q kb.keys,
      in_slot-eq-count q (clear_slot key kb.keys),
      count-clear_slot key q kb.keys ne (v.single q ne),
      same_modifier key q,
    ),
    record {
      six = length-clear_slot key kb.keys ∙ v.six;
      byte = v.byte;
      single =
          λ q ne. ground (arith, count-clear_slot key q kb.keys ne (v.single q ne), v.single q ne);
      plain = λ q h. ground (
        arith,
        count-clear_slot key q kb.keys (modifier_ne q h) (v.single q (modifier_ne q h)),
        v.plain q h,
      );
    },
    refl,
  )
]
