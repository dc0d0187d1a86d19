-- ===== src/Actions/Masks/Laws.antt =====
-- The table of masked keys as a map from keys to modes, of at most 32 keys.
use hurra_v.Base.{ℕ, suc, ◌+◌, ◌≤◌, ◌≡◌, refl, sym, ap₂, ◌∙◌, arith, not, ◌&&◌}
use hurra_v.Base.{List, [], ◌∷◌, ◌++◌, ltb, ◌==◌, if◌then◌else◌, length, length-append}
use hurra_v.Actions.Masks.{
  Masked, Masks, max_keys, last_first, close_gap, unmask, change, find, act_kb_mask, mode_of,
  act_kb_mask_get, masked_in, act_phys_key_masked,
}

-- How many entries there are for the key.
abbrev pub count : ℕ → List Masked → ℕ
count key [] = 0
count key (m ∷ ms) = (if m.key == key then 1 else 0) + count key ms

-- The modes of the key's entries, added up: with one entry at most it is the key's mode.
abbrev total : ℕ → List Masked → ℕ
total key [] = 0
total key (m ∷ ms) = (if m.key == key then m.mode else 0) + total key ms

-- One entry for a key at most, and none with mode 0.
pub record IsValid (s : Masks) : Type 0 where
  pub once : (q : ℕ) → count q s.keys ≤ 1
  pub strict : (q : ℕ) → count q s.keys ≤ total q s.keys
  pub room : length s.keys ≤ max_keys

length-last_first : (m : Masked) (ms : List Masked) → length (last_first m ms) ≡ suc (length ms)
unfolding last_first
length-last_first m [] = refl
length-last_first m (n ∷ ms) = ground (arith, length-last_first n ms)

last_first_lem :
    (q : ℕ) (m : Masked) (ms : List Masked)
    → (count q (last_first m ms) ≡ count q (m ∷ ms))
      × (total q (last_first m ms) ≡ total q (m ∷ ms))
unfolding last_first
last_first_lem q m [] = (refl, refl)
last_first_lem q m (n ∷ ms) = ground (arith, length-last_first n ms, last_first_lem q n ms)

close_gap_lem :
    (q : ℕ) (ms : List Masked)
    → (count q (close_gap ms) ≡ count q ms)
      × (total q (close_gap ms) ≡ total q ms)
      × (length (close_gap ms) ≡ length ms)
unfolding close_gap
close_gap_lem q [] = (refl, refl, refl)
close_gap_lem q (m ∷ ms) =
    ((last_first_lem q m ms).0, (last_first_lem q m ms).1, length-last_first m ms)

none_total : (q : ℕ) (ms : List Masked) → count q ms ≡ 0 → total q ms ≡ 0
none_total q [] h = refl
none_total q (m ∷ ms) h = ground (arith, none_total q ms)

mode_of-eq-total : (q : ℕ) (ms : List Masked) → count q ms ≤ 1 → mode_of q ms ≡ total q ms
unfolding mode_of
mode_of-eq-total q [] h = refl
mode_of-eq-total q (m ∷ ms) h = ground (arith, mode_of-eq-total q ms, none_total q ms)

unmask_lem :
    (key q : ℕ) (ms : List Masked)
    → count key ms ≤ 1
    → (count q (unmask key ms) ≡ (if key == q then 0 else count q ms))
      × (total q (unmask key ms) ≡ (if key == q then 0 else total q ms))
      × (length (unmask key ms) ≤ length ms)
unfolding unmask
unmask_lem key q [] h = ground arith
unmask_lem key q (m ∷ ms) h =
    ground (arith, unmask_lem key q ms, close_gap_lem q ms, none_total q ms)

change_lem :
    (key mode q : ℕ) (ms : List Masked)
    → count key ms ≤ 1
    → (count q (change key mode ms) ≡ count q ms)
      × (total q (change key mode ms)
          ≡ (if key == q then (if ltb 0 (count q ms) then mode else 0) else total q ms))
      × (length (change key mode ms) ≡ length ms)
unfolding change
change_lem key mode q [] h = ground arith
change_lem key mode q (m ∷ ms) h = ground (arith, change_lem key mode q ms, none_total q ms)

find-eq-count : (q : ℕ) (ms : List Masked) → find q ms ≡ ltb 0 (count q ms)
unfolding find
find-eq-count q [] = refl
find-eq-count q (m ∷ ms) = ground (arith, find-eq-count q ms)

append_lem :
    (q : ℕ) (ms : List Masked) (m : Masked)
    → (count q (ms ++ (m ∷ [])) ≡ count q ms + (if m.key == q then 1 else 0))
      × (total q (ms ++ (m ∷ [])) ≡ total q ms + (if m.key == q then m.mode else 0))
append_lem q [] m = omega arith
append_lem q (n ∷ ms) m = omega (arith, append_lem q ms m)

masked_in-eq-total : (q : ℕ) (ms : List Masked) → masked_in q ms ≡ ltb 0 (total q ms)
unfolding masked_in
masked_in-eq-total q [] = refl
masked_in-eq-total q (m ∷ ms) = ground (arith, masked_in-eq-total q ms)

pub act_kb_mask-IsValid : (s : Masks) (key mode : ℕ) → IsValid s → IsValid (act_kb_mask s key mode)
unfolding act_kb_mask
act_kb_mask-IsValid s key mode v = record {
  once = λ q. ground (
    arith,
    v.once q,
    v.once key,
    unmask_lem key q s.keys,
    change_lem key mode q s.keys,
    append_lem q s.keys (record { key = key; mode = mode }),
    find-eq-count key s.keys,
  );
  strict = λ q. ground (
    arith,
    v.once q,
    v.once key,
    v.strict q,
    unmask_lem key q s.keys,
    change_lem key mode q s.keys,
    append_lem q s.keys (record { key = key; mode = mode }),
    find-eq-count key s.keys,
  );
  room = ground (
    arith,
    v.room,
    v.once key,
    unmask_lem key key s.keys,
    change_lem key mode key s.keys,
    length-append {0} s.keys (record { key = key; mode = mode } ∷ []),
  );
}

get-eq-total : (s : Masks) (q : ℕ) → IsValid s → act_kb_mask_get s q ≡ total q s.keys
unfolding act_kb_mask_get
get-eq-total s q v = mode_of-eq-total q s.keys (v.once q)

step :
    (s : Masks) (key mode q : ℕ)
    → IsValid s
    → total q (act_kb_mask s key mode).keys ≡ (
        if key == q
        then (if (total key s.keys == 0) && (length s.keys == max_keys) then 0 else mode)
        else total q s.keys)
unfolding act_kb_mask
step s key mode q v = ground (
  arith,
  v.once key,
  v.strict key,
  v.room,
  unmask_lem key q s.keys,
  change_lem key mode q s.keys,
  append_lem q s.keys (record { key = key; mode = mode }),
  find-eq-count key s.keys,
  none_total key s.keys,
)

-- Setting the mode of a key is an update of the map from keys to modes: the key has the mode from then
-- on, mode 0 takes it out, and no other key changes. Only a new key over the 32 is dropped.
pub mask_get_mask :
    (s : Masks) (key mode q : ℕ)
    → IsValid s
    → act_kb_mask_get (act_kb_mask s key mode) q ≡ (
        if key == q
        then (if (act_kb_mask_get s key == 0) && (length s.keys == max_keys) then 0 else mode)
        else act_kb_mask_get s q)
mask_get_mask s key mode q v =
    get-eq-total (act_kb_mask s key mode) q (act_kb_mask-IsValid s key mode v)
    ∙ (step s key mode q v
        ∙ ap₂
            (λ (a b : ℕ).
              if key == q then (if (a == 0) && (length s.keys == max_keys) then 0 else mode) else b)
            (sym (get-eq-total s key v)) (sym (get-eq-total s q v)))

-- The merge path's test is whether the key has a mode.
pub key_masked_lem :
    (s : Masks) (q : ℕ) → IsValid s → act_phys_key_masked s q ≡ not (act_kb_mask_get s q == 0)
unfolding act_phys_key_masked
key_masked_lem s q v = ground (arith, masked_in-eq-total q s.keys, get-eq-total s q v)
