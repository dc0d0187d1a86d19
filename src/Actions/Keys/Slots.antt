-- ===== src/Actions/Keys/Slots.antt =====
-- The six slots as a set of keys: what is in them after an insertion and after a removal.
use hurra_v.Base.{
  ℕ, zero, suc, ◌+◌, ◌-◌, ◌≤◌, ◌<◌, ◌≡◌, ◌≢◌, refl, sym, ap, ◌∙◌, arith, true, false,
}
use hurra_v.Base.{
  Option, none, some, List, [], ◌∷◌, ltb, ◌==◌, if◌then◌else◌, set, length, get_or, dec_lt,
}
use hurra_v.Actions.Keys.{present, absent, search_slots, kb_insert, clear_slot, in_slot}

-- How many slots hold the key.
abbrev pub count : ℕ → List ℕ → ℕ
count key [] = 0
count key (k ∷ ks) = (if k == key then 1 else 0) + count key ks

pub in_slot-eq-count : (key : ℕ) (ks : List ℕ) → in_slot key ks ≡ ltb 0 (count key ks)
unfolding in_slot
in_slot-eq-count key [] = refl
in_slot-eq-count key (k ∷ ks) = ground (arith, in_slot-eq-count key ks)

-- Writing to a slot takes one key away and puts one in.
pub count-set :
    (key : ℕ) (ks : List ℕ) (i v : ℕ)
    → i < length ks
    → count key (set ks i v) + (if get_or ks i 1 == key then 1 else 0)
      ≡ count key ks + (if v == key then 1 else 0)
count-set key [] i v h = absurd (omega arith)
count-set key (k ∷ ks) zero v h = omega arith
count-set key (k ∷ ks) (suc i) v h = omega (arith, count-set key ks i v (omega arith))

first_free : List ℕ → ℕ → Option ℕ
first_free [] i = none
first_free (k ∷ ks) i = let rest = first_free ks (i + 1) in if k == 0 then some i else rest

search_some :
    (key : ℕ) (ks : List ℕ) (i j : ℕ)
    → search_slots key ks i (some j) ≡ (if ltb 0 (count key ks) then present else absent (some j))
unfolding search_slots
search_some key [] i j = refl
search_some key (k ∷ ks) i j = ground (arith, search_some key ks (i + 1) j)

search_none :
    (key : ℕ) (ks : List ℕ) (i : ℕ)
    → search_slots key ks i none
      ≡ (if ltb 0 (count key ks) then present else absent (first_free ks i))
unfolding search_slots first_free
search_none key [] i = refl
search_none key (k ∷ ks) i =
    ground (arith, search_none key ks (i + 1), search_some key ks (i + 1) i)

first_free-none : (ks : List ℕ) (i : ℕ) → first_free ks i ≡ none → count 0 ks ≡ 0
unfolding first_free
first_free-none [] i e = refl
first_free-none (k ∷ ks) i e = ground (arith, first_free-none ks (i + 1))

-- A free slot that was found, counted from where the search began.
first_free-some :
    (ks : List ℕ) (i j : ℕ)
    → first_free ks i ≡ some j
    → (i ≤ j) × (j - i < length ks) × (get_or ks (j - i) 1 ≡ 0)
unfolding first_free
first_free-some [] i j e = ground (arith, e)
first_free-some (zero ∷ ks) i j e =
    let z : j - i ≡ 0 = ground (arith, e) in rw z (ground (arith, e))
first_free-some (suc k ∷ ks) i j e =
    let ih = first_free-some ks (i + 1) j (ground (arith, e)) in
    let z : j - i ≡ suc (j - (i + 1)) = omega (arith, ih.0) in
    rw z (omega (arith, ih.0), omega (arith, ih.1), ih.2)

-- The ways of an insertion: the key was there, there is no room for it, or it went to a free slot.
pub data Inserted (key : ℕ) (ks : List ℕ) : Type 0 where
  was_there : 0 < count key ks → kb_insert key ks ≡ (ks, true) → Inserted key ks
  no_room : count key ks ≡ 0 → count 0 ks ≡ 0 → kb_insert key ks ≡ (ks, false) → Inserted key ks
  went_in :
      (i : ℕ)
      → count key ks ≡ 0
      → i < length ks
      → get_or ks i 1 ≡ 0
      → kb_insert key ks ≡ (set ks i key, true)
      → Inserted key ks

insert_free :
    (key : ℕ) (ks : List ℕ) (o : Option ℕ)
    → count key ks ≡ 0
    → first_free ks 0 ≡ o
    → Inserted key ks
unfolding kb_insert
insert_free key ks none c e =
    no_room c (first_free-none ks 0 e) (ground (arith, search_none key ks 0, c, e))
insert_free key ks (some j) c e =
    let f = first_free-some ks 0 j e in
    let z : j - 0 ≡ j = omega arith in
    went_in j c (omega (arith, f.1)) (ap (λ i. get_or ks i 1) (sym z) ∙ f.2)
      (ground (arith, search_none key ks 0, c, e))

pub Inserted-kb_insert : (key : ℕ) (ks : List ℕ) → Inserted key ks
unfolding kb_insert
Inserted-kb_insert key ks = elim (dec_lt 0 (count key ks)) [
  | yes h ↦ was_there h (ground (arith, search_none key ks 0, h))
  | no h ↦ insert_free key ks (first_free ks 0) (omega (arith, h)) refl
]

-- What a removal does to the counts, for a key that is in one slot at most.
pub count-clear_slot :
    (key q : ℕ) (ks : List ℕ)
    → q ≢ 0
    → count q ks ≤ 1
    → count q (clear_slot key ks) ≡ (if key == q then 0 else count q ks)
unfolding clear_slot
count-clear_slot key q [] ne h = ground arith
count-clear_slot key q (k ∷ ks) ne h = ground (arith, count-clear_slot key q ks ne)

pub length-clear_slot : (key : ℕ) (ks : List ℕ) → length (clear_slot key ks) ≡ length ks
unfolding clear_slot
length-clear_slot key [] = refl
length-clear_slot key (k ∷ ks) = ground (arith, length-clear_slot key ks)
