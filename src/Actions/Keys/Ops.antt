-- ===== src/Actions/Keys/Ops.antt =====
-- Key down, key up and key press as operations on the set of keys that are down.
use hurra_v.Base.{
  ℕ, zero, suc, ◌+◌, ◌≤◌, ◌<◌, ◌≡◌, ◌≢◌, refl, sym, ap, ◌∙◌, subst, arith, true, false, ◌&&◌, ◌||◌,
  not,
}
use hurra_v.Base.{
  Option, none, some, List, [], ◌∷◌, ◌++◌, ltb, ◌==◌, if◌then◌else◌, length, Bool-cases, inl, inr,
  ℕ_discrete, ◌%◌, ◌^◌,
}
use hurra_v.Actions.Keys.{
  Keyboard, Release, hold, let_go, act_kb_isdown, act_kb_down, act_kb_up, act_kb_press,
  kb_cancel_release,
}
use hurra_v.Actions.Keys.Releases
use hurra_v.Actions.Keys.Releases.{count-kb_cancel_release, count-append}
use hurra_v.Actions.Keys.Held.{IsValid, Holds, hold_lem, let_go_lem}

-- No key stands twice, neither in the slots nor among the scheduled releases, and every key that is
-- to be released is down.
pub record IsSafe (kb : Keyboard) : Type 0 where
  pub valid : IsValid kb
  pub once : (q : ℕ) → Releases.count q kb.releases ≤ 1
  pub live : (q : ℕ) → 0 < Releases.count q kb.releases → (q ≢ 0) × (act_kb_isdown kb q ≡ true)

abbrev cancelled : Keyboard → ℕ → Keyboard
cancelled kb key = record kb { releases = kb_cancel_release key kb.releases }

isdown-cancelled :
    (kb : Keyboard) (key q : ℕ) → act_kb_isdown (cancelled kb key) q ≡ act_kb_isdown kb q
unfolding act_kb_isdown
isdown-cancelled kb key q = refl

cancelled-IsValid : (kb : Keyboard) (key : ℕ) → IsValid kb → IsValid (cancelled kb key)
cancelled-IsValid kb key v = record {
  six = v.six;
  byte = v.byte;
  single = v.single;
  plain = v.plain;
}

pub cancelled-IsSafe : (kb : Keyboard) (key : ℕ) → IsSafe kb → IsSafe (cancelled kb key)
unfolding act_kb_isdown
cancelled-IsSafe kb key s = record {
  valid = cancelled-IsValid kb key s.valid;
  once = λ q. ground (arith, count-kb_cancel_release q key kb.releases (s.once key), s.once q);
  live =
      λ q h. s.live q (ground (arith, count-kb_cancel_release q key kb.releases (s.once key), h));
}

pub held-IsSafe :
    (kb : Keyboard) (key : ℕ) (held : Keyboard) → IsSafe kb → Holds kb key held → IsSafe held
held-IsSafe kb key held s h = record {
  valid = h.valid;
  once = λ q. subst (λ rs. Releases.count q rs ≤ 1) (sym h.releases) (s.once q);
  live = λ q c. still q (s.live q (subst (λ rs. 0 < Releases.count q rs) h.releases c));
}
  where
    still :
        (q : ℕ) → (q ≢ 0) × (act_kb_isdown kb q ≡ true) → (q ≢ 0) × (act_kb_isdown held q ≡ true)
    still q l = (l.0, ground (arith, h.adds q l.0, l.1))

-- What a call of `act_kb_down` does, accepted or refused.
pub act_kb_down_lem :
    (kb : Keyboard) (key q : ℕ)
    → IsSafe kb
    → q ≢ 0
    → IsSafe (act_kb_down kb key).0
      × (act_kb_isdown (act_kb_down kb key).0 q
          ≡ ((act_kb_down kb key).2 && (key == q) || act_kb_isdown kb q))
unfolding act_kb_down
act_kb_down_lem kb zero q s ne = (s, refl)
act_kb_down_lem kb (suc k) q s ne = go (hold (cancelled kb (suc k)) (suc k)) refl
  where
    go :
        (o : Option Keyboard)
        → hold (cancelled kb (suc k)) (suc k) ≡ o
        → IsSafe (act_kb_down kb (suc k)).0
          × (act_kb_isdown (act_kb_down kb (suc k)).0 q
              ≡ ((act_kb_down kb (suc k)).2 && (suc k == q) || act_kb_isdown kb q))
    go none e =
        let t : (suc k == 0) ≡ false = ground arith in
        rw (t, e) (cancelled-IsSafe kb (suc k) s, isdown-cancelled kb (suc k) q)
    go (some held) e =
        let c = cancelled-IsSafe kb (suc k) s in
        let h = hold_lem (cancelled kb (suc k)) (suc k) held c.valid (omega arith) e in
        let t : (suc k == 0) ≡ false = ground arith in
        rw (t, e)
          (
            held-IsSafe (cancelled kb (suc k)) (suc k) held c h,
            h.adds q ne ∙ ap (λ b. (suc k == q) || b) (isdown-cancelled kb (suc k) q),
          )

-- After `act_kb_up` the key is not down, and no other key has changed.
pub act_kb_up_lem :
    (kb : Keyboard) (key q : ℕ)
    → IsSafe kb
    → q ≢ 0
    → IsSafe (act_kb_up kb key).0
      × (act_kb_isdown (act_kb_up kb key).0 q ≡ (not (key == q) && act_kb_isdown kb q))
unfolding act_kb_up
act_kb_up_lem kb key q s ne =
    let c = cancelled-IsSafe kb key s in
    let l = let_go_lem (cancelled kb key) key c.valid in
    (
      record {
        valid = l.1;
        once = λ p. subst (λ rs. Releases.count p rs ≤ 1) (sym l.2) (c.once p);
        live = λ p h. still p (subst (λ rs. 0 < Releases.count p rs) l.2 h);
      },
      l.0 q ne ∙ ap (λ b. not (key == q) && b) (isdown-cancelled kb key q),
    )
  where
    still :
        (p : ℕ)
        → 0 < Releases.count p (kb_cancel_release key kb.releases)
        → (p ≢ 0) × (act_kb_isdown (let_go (cancelled kb key) key) p ≡ true)
    still p h =
        let c = cancelled-IsSafe kb key s in
        let a = (cancelled-IsSafe kb key s).live p h in
        let n = count-kb_cancel_release p key kb.releases (s.once key) in
        (a.0, ground (arith, (let_go_lem (cancelled kb key) key c.valid).0 p a.0, a.1, n, h))

-- The key and the releases that a press leaves, whether or not there is room for its release.
abbrev pressed : Keyboard → ℕ → ℕ → Keyboard
pressed held key t =
    let rs = kb_cancel_release key held.releases in
    record held {
      releases = if ltb (length rs) 14 then rs ++ (record { key = key; at = t } ∷ []) else rs;
    }

abbrev pub scheduled : Keyboard → ℕ → ℕ → Keyboard
scheduled held key t = record held {
  releases = kb_cancel_release key held.releases ++ (record { key = key; at = t } ∷ []);
}

pub scheduled-IsSafe :
    (held : Keyboard) (key t : ℕ)
    → IsSafe held
    → key ≢ 0
    → act_kb_isdown held key ≡ true
    → IsSafe (scheduled held key t)
unfolding act_kb_isdown
scheduled-IsSafe held key t s ne d =
    let rs = kb_cancel_release key held.releases in
    let entry : List Release = record { key = key; at = t } ∷ [] in
    let gone = λ (q : ℕ). count-kb_cancel_release q key held.releases (s.once key) in
    record {
      valid = record {
        six = s.valid.six;
        byte = s.valid.byte;
        single = s.valid.single;
        plain = s.valid.plain;
      };
      once = λ q. ground (arith, count-append q rs entry, gone q, s.once q);
      live = λ q h. elim (ℕ_discrete key q) [
        | yes e ↦ subst (λ p. (p ≢ 0) × (act_kb_isdown (scheduled held key t) p ≡ true)) e (ne, d)
        | no n ↦ s.live q (ground (arith, h, n, count-append q rs entry, gone q))
      ];
    }

pressed-IsSafe :
    (held : Keyboard) (key t : ℕ)
    → IsSafe held
    → key ≢ 0
    → act_kb_isdown held key ≡ true
    → IsSafe (pressed held key t)
pressed-IsSafe held key t s ne d =
    elim (Bool-cases (ltb (length (kb_cancel_release key held.releases)) 14)) [
      | inl e ↦ rw e (scheduled-IsSafe held key t s ne d)
      | inr e ↦ rw e (cancelled-IsSafe held key s)
    ]

pressed_isdown :
    (held : Keyboard) (key t q : ℕ) → act_kb_isdown (pressed held key t) q ≡ act_kb_isdown held q
unfolding act_kb_isdown
pressed_isdown held key t q = refl

-- What a call of `act_kb_press` does, accepted or refused.
pub act_kb_press_lem :
    (kb : Keyboard) (key delay_ms now q : ℕ)
    → IsSafe kb
    → q ≢ 0
    → IsSafe (act_kb_press kb key delay_ms now).0
      × (act_kb_isdown (act_kb_press kb key delay_ms now).0 q ≡ (
          (not (length (act_kb_press kb key delay_ms now).1 == 0) && (key == q))
          || act_kb_isdown kb q))
unfolding act_kb_press
act_kb_press_lem kb zero delay_ms now q s ne = (s, refl)
act_kb_press_lem kb (suc k) delay_ms now q s ne = go (hold kb (suc k)) refl
  where
    t : ℕ
    t = (now + (if ltb 0x7fffffff delay_ms then 0x7fffffff else delay_ms)) % 2 ^ 32

    go :
        (o : Option Keyboard)
        → hold kb (suc k) ≡ o
        → IsSafe (act_kb_press kb (suc k) delay_ms now).0
          × (act_kb_isdown (act_kb_press kb (suc k) delay_ms now).0 q ≡ (
              (not (length (act_kb_press kb (suc k) delay_ms now).1 == 0) && (suc k == q))
              || act_kb_isdown kb q))
    go none e = let f : (suc k == 0) ≡ false = ground arith in rw (f, e) (s, refl)
    go (some held) e =
        let f : (suc k == 0) ≡ false = ground arith in
        let h = hold_lem kb (suc k) held s.valid (omega arith) e in
        let d : act_kb_isdown held (suc k) ≡ true = ground (arith, h.adds (suc k) (omega arith)) in
        rw (f, e)
          (
            pressed-IsSafe held (suc k) t (held-IsSafe kb (suc k) held s h) (omega arith) d,
            pressed_isdown held (suc k) t q ∙ h.adds q ne,
          )
