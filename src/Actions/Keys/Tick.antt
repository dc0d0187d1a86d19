-- ===== src/Actions/Keys/Tick.antt =====
-- One step of the scheduled releases.
use hurra_v.Base.{
  ℕ, zero, suc, ◌+◌, ◌≤◌, ◌<◌, ◌≡◌, ◌≢◌, refl, ap, ◌∙◌, subst, arith, true, false, ◌&&◌, not,
}
use hurra_v.Base.{
  Option, none, some, List, [], ◌∷◌, length, take, take_all, get_elem?, Bool-cases, inl, inr,
}
use hurra_v.Timing.{time_deadline_reached}
use hurra_v.Actions.Keys.{
  Keyboard, Release, let_go, act_kb_isdown, act_kb_up, kb_cancel_release, release_loop,
  act_kb_release_tick,
}
use hurra_v.Actions.Keys.Releases.{
  due, due-kb_cancel_release, length-kb_cancel_release, count-get_elem?, take-kb_cancel_release,
  due-take, get_elem?-none,
}
use hurra_v.Actions.Keys.Ops.{IsSafe, act_kb_up_lem}

releases-act_kb_up :
    (kb : Keyboard) (key : ℕ) → (act_kb_up kb key).0.releases ≡ kb_cancel_release key kb.releases
unfolding act_kb_up let_go
releases-act_kb_up kb key = ground arith

-- The keyboard after the loop: nothing is due, and the keys that were due are up.
abbrev Released : Keyboard → Keyboard → ℕ → ℕ → Type 0
Released kb end now q =
    IsSafe end
    × ((p : ℕ) → due p end.releases now ≡ false)
    × (act_kb_isdown end q ≡ (not (due q kb.releases now) && act_kb_isdown kb q))

no_more :
    (kb : Keyboard) (i now q : ℕ)
    → IsSafe kb
    → length kb.releases ≤ i
    → ((p : ℕ) → due p (take i kb.releases) now ≡ false)
    → Released kb kb now q
no_more kb i now q s h d =
    let e = take_all i kb.releases h in
    let all : (p : ℕ) → due p kb.releases now ≡ false =
      λ p. subst (λ rs. due p rs now ≡ false) e (d p) in
    (s, all, ground (arith, all q))

-- What the loop does with so much fuel, from any index.
abbrev LoopSpec : ℕ → ℕ → ℕ → Type 0
LoopSpec fuel now q =
    (kb : Keyboard) (i : ℕ)
    → IsSafe kb
    → length kb.releases ≤ fuel + i
    → ((p : ℕ) → due p (take i kb.releases) now ≡ false)
    → q ≢ 0
    → Released kb (release_loop fuel kb i now).0 now q

skip_eq :
    (fuel now : ℕ) (kb : Keyboard) (i : ℕ) (r : Release)
    → get_elem? kb.releases i ≡ some r
    → time_deadline_reached now r.at ≡ false
    → (release_loop (suc fuel) kb i now).0 ≡ (release_loop fuel kb (i + 1) now).0
unfolding release_loop
skip_eq fuel now kb i r e t = ground (arith, e, t)

release_eq :
    (fuel now : ℕ) (kb : Keyboard) (i : ℕ) (r : Release)
    → get_elem? kb.releases i ≡ some r
    → time_deadline_reached now r.at ≡ true
    → (release_loop (suc fuel) kb i now).0 ≡ (release_loop fuel (act_kb_up kb r.key).0 i now).0
unfolding release_loop
release_eq fuel now kb i r e t = ground (arith, e, t)

zero_eq : (now : ℕ) (kb : Keyboard) (i : ℕ) → (release_loop zero kb i now).0 ≡ kb
unfolding release_loop
zero_eq now kb i = refl

end_eq :
    (fuel now : ℕ) (kb : Keyboard) (i : ℕ)
    → get_elem? kb.releases i ≡ none
    → (release_loop (suc fuel) kb i now).0 ≡ kb
unfolding release_loop
end_eq fuel now kb i e = ground (arith, e)

loop_skips :
    (fuel now q : ℕ) (kb : Keyboard) (i : ℕ) (r : Release)
    → LoopSpec fuel now q
    → IsSafe kb
    → length kb.releases ≤ suc fuel + i
    → ((p : ℕ) → due p (take i kb.releases) now ≡ false)
    → q ≢ 0
    → get_elem? kb.releases i ≡ some r
    → time_deadline_reached now r.at ≡ false
    → Released kb (release_loop (suc fuel) kb i now).0 now q
loop_skips fuel now q kb i r spec s h d ne e t = rw (skip_eq fuel now kb i r e t) (
    spec kb (i + 1) s (omega (arith, h))
      (λ p. due-take p now kb.releases i (i + 1) r refl e t ∙ d p) ne)

due-get_elem? :
    (now : ℕ) (rs : List Release) (i : ℕ) (r : Release)
    → get_elem? rs i ≡ some r
    → time_deadline_reached now r.at ≡ true
    → due r.key rs now ≡ true
due-get_elem? now [] i r e t = ground (arith, e)
due-get_elem? now (x ∷ rs) zero r e t = ground (arith, e, t)
due-get_elem? now (x ∷ rs) (suc i) r e t = ground (arith, due-get_elem? now rs i r e t)

loop_releases :
    (fuel now q : ℕ) (kb : Keyboard) (i : ℕ) (r : Release)
    → LoopSpec fuel now q
    → IsSafe kb
    → length kb.releases ≤ suc fuel + i
    → ((p : ℕ) → due p (take i kb.releases) now ≡ false)
    → q ≢ 0
    → get_elem? kb.releases i ≡ some r
    → time_deadline_reached now r.at ≡ true
    → Released kb (release_loop (suc fuel) kb i now).0 now q
loop_releases fuel now q kb i r spec s h d ne e t =
    let up = (act_kb_up kb r.key).0 in
    let rel = releases-act_kb_up kb r.key in
    let u = act_kb_up_lem kb r.key q s ne in
    let pos = count-get_elem? kb.releases i r e in
    let len = length-kb_cancel_release r.key kb.releases in
    let lens : length up.releases ≡ length (kb_cancel_release r.key kb.releases) =
      ap (λ rs. length rs) rel in
    let early = take-kb_cancel_release kb.releases i r e (s.once r.key) in
    let ih =
      spec up i u.0 (ground (arith, len, pos, lens, h))
        (λ p. ap (λ rs. due p (take i rs) now) rel ∙ (ap (λ rs. due p rs now) early ∙ d p)) ne in
    let gone =
      ap (λ rs. due q rs now) rel ∙ due-kb_cancel_release q r.key kb.releases now (s.once r.key) in
    let here = due-get_elem? now kb.releases i r e t in
    rw (release_eq fuel now kb i r e t) (ih.0, ih.1, ground (arith, ih.2, gone, u.1, here))

release_loop_lem : (fuel now q : ℕ) → LoopSpec fuel now q
release_loop_lem zero now q kb i s h d ne =
    rw (zero_eq now kb i) (no_more kb i now q s (omega (arith, h)) d)
release_loop_lem (suc fuel) now q kb i s h d ne =
    go (release_loop_lem fuel now q) (get_elem? kb.releases i) refl
  where
    split :
        LoopSpec fuel now q
        → (r : Release) → get_elem? kb.releases i ≡ some r
        → Released kb (release_loop (suc fuel) kb i now).0 now q
    split spec r e = elim (Bool-cases (time_deadline_reached now r.at)) [
      | inl t ↦ loop_releases fuel now q kb i r spec s h d ne e t
      | inr t ↦ loop_skips fuel now q kb i r spec s h d ne e t
    ]

    go :
        LoopSpec fuel now q
        → (o : Option Release) → get_elem? kb.releases i ≡ o
        → Released kb (release_loop (suc fuel) kb i now).0 now q
    go spec none e =
        rw (end_eq fuel now kb i e) (no_more kb i now q s (get_elem?-none kb.releases i e) d)
    go spec (some r) e = split spec r e

tick-Released :
    (kb : Keyboard) (now q : ℕ)
    → IsSafe kb
    → q ≢ 0
    → Released kb (act_kb_release_tick kb now).0 now q
unfolding act_kb_release_tick
tick-Released kb now q s ne =
    release_loop_lem (length kb.releases) now q kb 0 s (omega arith) (λ p. refl) ne

pub tick-IsSafe : (kb : Keyboard) (now : ℕ) → IsSafe kb → IsSafe (act_kb_release_tick kb now).0
tick-IsSafe kb now s = (tick-Released kb now 1 s (omega arith)).0

-- After the tick no scheduled release of any key `p` is due any more; a key `q` whose release was due
-- is up, and any other key is down or up as before.
pub release_tick_lem :
    (kb : Keyboard) (now p q : ℕ)
    → IsSafe kb
    → 0 < q
    → (due p (act_kb_release_tick kb now).0.releases now ≡ false)
      × (act_kb_isdown (act_kb_release_tick kb now).0 q
          ≡ (not (due q kb.releases now) && act_kb_isdown kb q))
release_tick_lem kb now p q s pos =
    let r = tick-Released kb now q s (omega (arith, pos)) in (r.1 p, r.2)
