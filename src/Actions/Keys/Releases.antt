-- ===== src/Actions/Keys/Releases.antt =====
-- The scheduled releases: cancelling one takes just its key's entry out.
use hurra_v.Base.{ℕ, zero, suc, ◌+◌, ◌≤◌, ◌<◌, ◌≡◌, refl, arith, Bool, true, false}
use hurra_v.Base.{
  none, some, List, [], ◌∷◌, ◌++◌, ltb, ◌==◌, if◌then◌else◌, length, get_elem?, take,
}
use hurra_v.Timing.{time_deadline_reached}
use hurra_v.Actions.Keys.{Release, last_first, close_gap, kb_cancel_release}

-- How many entries there are for the key.
abbrev pub count : ℕ → List Release → ℕ
count key [] = 0
count key (r ∷ rs) = (if r.key == key then 1 else 0) + count key rs

-- An entry for the key whose time has come.
abbrev pub due : ℕ → List Release → ℕ → Bool
due key [] now = false
due key (r ∷ rs) now =
    if r.key == key
    then (if time_deadline_reached now r.at then true else due key rs now)
    else due key rs now

length-last_first : (r : Release) (rs : List Release) → length (last_first r rs) ≡ suc (length rs)
unfolding last_first
length-last_first r [] = refl
length-last_first r (s ∷ rs) = ground (arith, length-last_first s rs)

count-last_first :
    (q : ℕ) (r : Release) (rs : List Release) → count q (last_first r rs) ≡ count q (r ∷ rs)
unfolding last_first
count-last_first q r [] = refl
count-last_first q r (s ∷ rs) = ground (arith, length-last_first s rs, count-last_first q s rs)

due-last_first :
    (q : ℕ) (r : Release) (rs : List Release) (now : ℕ)
    → due q (last_first r rs) now ≡ due q (r ∷ rs) now
unfolding last_first
due-last_first q r [] now = refl
due-last_first q r (s ∷ rs) now = ground (arith, length-last_first s rs, due-last_first q s rs now)

count-close_gap : (q : ℕ) (rs : List Release) → count q (close_gap rs) ≡ count q rs
unfolding close_gap
count-close_gap q [] = refl
count-close_gap q (r ∷ rs) = count-last_first q r rs

due-close_gap : (q : ℕ) (rs : List Release) (now : ℕ) → due q (close_gap rs) now ≡ due q rs now
unfolding close_gap
due-close_gap q [] now = refl
due-close_gap q (r ∷ rs) now = due-last_first q r rs now

length-close_gap : (rs : List Release) → length (close_gap rs) ≡ length rs
unfolding close_gap
length-close_gap [] = refl
length-close_gap (r ∷ rs) = length-last_first r rs

no_due : (q : ℕ) (rs : List Release) (now : ℕ) → count q rs ≡ 0 → due q rs now ≡ false
no_due q [] now h = refl
no_due q (r ∷ rs) now h = ground (arith, no_due q rs now)

pub count-kb_cancel_release :
    (q key : ℕ) (rs : List Release)
    → count key rs ≤ 1
    → count q (kb_cancel_release key rs) ≡ (if key == q then 0 else count q rs)
unfolding kb_cancel_release
count-kb_cancel_release q key [] h = ground arith
count-kb_cancel_release q key (r ∷ rs) h =
    ground (arith, count-kb_cancel_release q key rs, count-close_gap q rs)

pub due-kb_cancel_release :
    (q key : ℕ) (rs : List Release) (now : ℕ)
    → count key rs ≤ 1
    → due q (kb_cancel_release key rs) now ≡ (if key == q then false else due q rs now)
unfolding kb_cancel_release
due-kb_cancel_release q key [] now h = ground arith
due-kb_cancel_release q key (r ∷ rs) now h =
    ground (arith, due-kb_cancel_release q key rs now, due-close_gap q rs now, no_due q rs now)

pub length-kb_cancel_release :
    (key : ℕ) (rs : List Release)
    → length (kb_cancel_release key rs) + (if ltb 0 (count key rs) then 1 else 0) ≡ length rs
unfolding kb_cancel_release
length-kb_cancel_release key [] = refl
length-kb_cancel_release key (r ∷ rs) =
    ground (arith, length-kb_cancel_release key rs, length-close_gap rs)

pub count-get_elem? :
    (rs : List Release) (i : ℕ) (r : Release) → get_elem? rs i ≡ some r → 0 < count r.key rs
count-get_elem? [] i r e = ground (arith, e)
count-get_elem? (s ∷ rs) zero r e = ground (arith, e)
count-get_elem? (s ∷ rs) (suc i) r e = ground (arith, count-get_elem? rs i r e)

-- The entries before a cancelled one stay where they are.
pub take-kb_cancel_release :
    (rs : List Release) (i : ℕ) (r : Release)
    → get_elem? rs i ≡ some r
    → count r.key rs ≤ 1
    → take i (kb_cancel_release r.key rs) ≡ take i rs
unfolding kb_cancel_release
take-kb_cancel_release [] i r e h = ground (arith, e)
take-kb_cancel_release (s ∷ rs) zero r e h = refl
take-kb_cancel_release (s ∷ rs) (suc i) r e h =
    ground (arith, count-get_elem? rs i r e, take-kb_cancel_release rs i r e)

pub due-take :
    (q now : ℕ) (rs : List Release) (i k : ℕ) (r : Release)
    → k ≡ i + 1
    → get_elem? rs i ≡ some r
    → time_deadline_reached now r.at ≡ false
    → due q (take k rs) now ≡ due q (take i rs) now
due-take q now rs i zero r s e n = absurd (omega arith)
due-take q now [] i (suc k) r s e n = ground (arith, e)
due-take q now (x ∷ rs) zero (suc k) r s e n =
    let z : k ≡ 0 = omega arith in rw z (ground (arith, e, n))
due-take q now (x ∷ rs) (suc i) (suc k) r s e n =
    ground (arith, due-take q now rs i k r (omega arith) e n)

pub get_elem?-none : (rs : List Release) (i : ℕ) → get_elem? rs i ≡ none → length rs ≤ i
get_elem?-none [] i e = omega arith
get_elem?-none (r ∷ rs) zero e = ground (arith, e)
get_elem?-none (r ∷ rs) (suc i) e = omega (arith, get_elem?-none rs i e)

pub count-append : (q : ℕ) (rs ss : List Release) → count q (rs ++ ss) ≡ count q rs + count q ss
count-append q [] ss = omega arith
count-append q (r ∷ rs) ss = omega (arith, count-append q rs ss)
