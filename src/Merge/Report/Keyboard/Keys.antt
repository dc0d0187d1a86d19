-- ===== src/Merge/Report/Keyboard/Keys.antt =====
-- Which keys a keyboard report has after the masks and the merge.
use hurra_v.Base.{
  ℕ, zero, suc, ◌+◌, ◌≤◌, ◌<◌, ◌≡◌, ◌≢◌, ◌⊎◌, inl, inr, refl, ap, ◌∙◌, sym, subst, arith, Bool,
  true, false, not, ◌&&◌, bit_or, Bool-cases, ℕ_discrete,
}
use hurra_v.Base.{
  List, [], ◌∷◌, get_or, set, length, length-set, get_or-set_self, get_or-set_ne, ltb, ◌==◌,
  if◌then◌else◌,
}
use hurra_v.Actions.Masks.{Masked, Masks, masked_in, act_phys_key_masked, act_phys_kb_mask_active}
use hurra_v.Merge.{Inject}
use hurra_v.Merge.Report.Keyboard.{
  has_key, put_key, merge_key, merge_keys, usb_merge_keyboard, mask_keys, usb_merge_phys_keyboard,
}

-- The first of the bytes that are looked at.
strip : Masks → ℕ → List ℕ → List ℕ
strip s j report =
    if not (get_or report j 0 == 0) && act_phys_key_masked s (get_or report j 0)
    then set report j 0
    else report

choose : {A : Type 0} (P : A → Type 0) (b : Bool) (x y : A) → P x → P y → P (if b then x else y)
choose P true x y p q = p
choose P false x y p q = q

length-strip : (s : Masks) (j : ℕ) (report : List ℕ) → length (strip s j report) ≡ length report
unfolding strip
length-strip s j report =
    choose (λ (r : List ℕ). length r ≡ length report) _ (set report j 0) report
      (length-set report j 0) refl

strip_other :
    (s : Masks) (j k : ℕ) (report : List ℕ)
    → j ≢ k
    → get_or (strip s j report) k 0 ≡ get_or report k 0
unfolding strip
strip_other s j k report ne =
    choose (λ (r : List ℕ). get_or r k 0 ≡ get_or report k 0) _ (set report j 0) report
      (get_or-set_ne report j k 0 0 ne) refl

-- What a slot with key `x` has after the masks.
abbrev pub unless_masked : Masks → ℕ → ℕ
unless_masked s x = if act_phys_key_masked s x then 0 else x

strip_here :
    (s : Masks) (j : ℕ) (report : List ℕ)
    → j < length report
    → get_or (strip s j report) j 0 ≡ unless_masked s (get_or report j 0)
unfolding strip
strip_here s j report h =
    let x = get_or report j 0 in
    elim (Bool-cases (act_phys_key_masked s x)) [
      | inr m ↦ rw m (ground (arith, m))
      | inl m ↦ elim (Bool-cases (x == 0)) [
        | inl z ↦ rw (m, z) (ground (arith, z))
        | inr z ↦ rw (m, z) (get_or-set_self report j 0 0 h)
      ]
    ]

mask_keys_before :
    (s : Masks) (n j k : ℕ) (report : List ℕ)
    → k < j
    → get_or (mask_keys s n j report) k 0 ≡ get_or report k 0
unfolding mask_keys strip
mask_keys_before s zero j k report h = refl
mask_keys_before s (suc n) j k report h =
    mask_keys_before s n (j + 1) k (strip s j report) (omega (arith, h))
    ∙ strip_other s j k report (λ e. omega (arith, e, h))

mask_keys_within :
    (s : Masks) (n j k : ℕ) (report : List ℕ)
    → j ≤ k
    → k < j + n
    → j + n ≤ length report
    → get_or (mask_keys s n j report) k 0 ≡ unless_masked s (get_or report k 0)
unfolding mask_keys strip
mask_keys_within s zero j k report low high room = absurd (omega (arith, low, high))
mask_keys_within s (suc n) j k report low high room = elim (ℕ_discrete j k) [
  | yes e ↦
      subst
        (λ (q : ℕ).
          get_or (mask_keys s n (j + 1) (strip s j report)) q 0
          ≡ unless_masked s (get_or report q 0))
        e
        (mask_keys_before s n (j + 1) j (strip s j report) (omega arith)
          ∙ strip_here s j report (omega (arith, room)))
  | no ne ↦
      mask_keys_within s n (j + 1) k (strip s j report) (omega (arith, low, ne))
        (omega (arith, high)) (omega (arith, room, length-strip s j report))
      ∙ ap (unless_masked s) (strip_other s j k report ne)
]

empty_lem : (ms : List Masked) (x : ℕ) → not (length ms == 0) ≡ false → masked_in x ms ≡ false
unfolding masked_in
empty_lem [] x h = refl
empty_lem (m ∷ ms) x h = ground (arith, h)

none_masked :
    (s : Masks) (x : ℕ) → act_phys_kb_mask_active s ≡ false → act_phys_key_masked s x ≡ false
unfolding act_phys_kb_mask_active act_phys_key_masked masked_in
none_masked s x h = empty_lem s.keys x h

-- A keyboard report of at least eight bytes: each of its six keys is taken out if it is masked, and stays
-- as it is if it is not.
pub masked_keys_gone :
    (s : Masks) (report : List ℕ) (k : ℕ)
    → 8 ≤ length report
    → 2 ≤ k
    → k < 8
    → get_or (usb_merge_phys_keyboard s report) k 0 ≡ unless_masked s (get_or report k 0)
unfolding usb_merge_phys_keyboard
masked_keys_gone s report k room low high = elim (Bool-cases (act_phys_kb_mask_active s)) [
  | inl e ↦ rw e (mask_keys_within s 6 2 k report low (omega (arith, high)) (omega (arith, room)))
  | inr e ↦ rw (e, none_masked s (get_or report k 0) e) refl
]

-- A report with every key of another one, in its place.
abbrev Keeps : List ℕ → List ℕ → Type 0
Keeps before after =
    (k : ℕ) → (get_or before k 0 == 0) ≡ false → get_or after k 0 ≡ get_or before k 0

set-Keeps : (r : List ℕ) (j v : ℕ) → (get_or r j 0 == 0) ≡ true → Keeps r (set r j v)
set-Keeps r j v z k h =
    get_or-set_ne r j k v 0
      (λ e. clash (get_or r k 0 == 0) (subst (λ (q : ℕ). (get_or r q 0 == 0) ≡ true) e z) h)
  where
    clash : (b : Bool) → b ≡ true → b ≡ false → ⊥
    clash true e h = ground (arith, h)
    clash false e h = ground (arith, e)

put_key-Keeps : (n j : ℕ) (r : List ℕ) (key : ℕ) → Keeps r (put_key n j r key)
unfolding put_key
put_key-Keeps zero j r key k h = refl
put_key-Keeps (suc n) j r key k h = elim (Bool-cases (get_or r j 0 == 0)) [
  | inl e ↦ rw e (set-Keeps r j key e k h)
  | inr e ↦ rw e (put_key-Keeps n (j + 1) r key k h)
]

merge_key-Keeps : (r : List ℕ) (key : ℕ) → Keeps r (merge_key r key)
unfolding merge_key
merge_key-Keeps r key k h =
    choose (λ (q : List ℕ). get_or q k 0 ≡ get_or r k 0) _ r (put_key 6 2 r key) refl
      (put_key-Keeps 6 2 r key k h)

merge_keys-Keeps : (r keys : List ℕ) → Keeps r (merge_keys r keys)
unfolding merge_keys
merge_keys-Keeps r [] k h = refl
merge_keys-Keeps r (key ∷ keys) k h =
    let e = merge_key-Keeps r key k h in
    merge_keys-Keeps (merge_key r key) keys k (ap (λ (q : ℕ). q == 0) e ∙ h) ∙ e

-- The report has the key, or has no free place.
abbrev pub Settled : List ℕ → ℕ → Type 0
Settled r key = (has_key 6 2 r key ≡ true) ⊎ (has_key 6 2 r 0 ≡ false)

further : (b c : Bool) → b ≡ false → (if b then true else c) ≡ true → c ≡ true
further true c e h = ground (arith, e)
further false c e h = h

either : (b c : Bool) → c ≡ true → (if b then true else c) ≡ true
either true c h = refl
either false c h = h

has_key-Keeps :
    (n j : ℕ) (r r' : List ℕ) (key : ℕ)
    → Keeps r r'
    → (key == 0) ≡ false
    → has_key n j r key ≡ true
    → has_key n j r' key ≡ true
unfolding has_key
has_key-Keeps zero j r r' key keep nz h = h
has_key-Keeps (suc n) j r r' key keep nz h = elim (Bool-cases (get_or r j 0 == key)) [
  | inl e ↦
      let x : get_or r j 0 ≡ key = ground (arith, e) in
      let y = keep j (ap (λ (q : ℕ). q == 0) x ∙ nz) ∙ x in
      let z : (get_or r' j 0 == key) ≡ true = ground (arith, y) in rw z refl
  | inr e ↦
      let rest =
        has_key-Keeps n (j + 1) r r' key keep nz
          (further (get_or r j 0 == key) (has_key n (j + 1) r key) e h) in
      either (get_or r' j 0 == key) (has_key n (j + 1) r' key) rest
]

-- A key for which there was a free place is in the report after it was put there.
put_key_lem :
    (n j : ℕ) (r : List ℕ) (key : ℕ)
    → j + n ≤ length r
    → has_key n j r 0 ≡ true
    → has_key n j (put_key n j r key) key ≡ true
unfolding put_key has_key
put_key_lem zero j r key room h = ground (arith, h)
put_key_lem (suc n) j r key room h = elim (Bool-cases (get_or r j 0 == 0)) [
  | inl e ↦
      let x = get_or-set_self r j key 0 (omega (arith, room)) in
      let z : (get_or (set r j key) j 0 == key) ≡ true = ground (arith, x) in rw (e, z) refl
  | inr e ↦ rw e (
      either (get_or (put_key n (j + 1) r key) j 0 == key)
        (has_key n (j + 1) (put_key n (j + 1) r key) key)
        (put_key_lem n (j + 1) r key (omega (arith, room))
          (further (get_or r j 0 == 0) (has_key n (j + 1) r 0) e h)))
]

put_key_full : (n j : ℕ) (r : List ℕ) (key : ℕ) → has_key n j r 0 ≡ false → put_key n j r key ≡ r
unfolding put_key has_key
put_key_full zero j r key h = refl
put_key_full (suc n) j r key h = elim (Bool-cases (get_or r j 0 == 0)) [
  | inl e ↦ absurd (wrong (get_or r j 0 == 0) (has_key n (j + 1) r 0) e h)
  | inr e ↦
      rw e (put_key_full n (j + 1) r key (rest_false (get_or r j 0 == 0) (has_key n (j + 1) r 0) h))
]
  where
    wrong : (b c : Bool) → b ≡ true → (if b then true else c) ≡ false → ⊥
    wrong true c e h = ground (arith, h)
    wrong false c e h = ground (arith, e)

    rest_false : (b c : Bool) → (if b then true else c) ≡ false → c ≡ false
    rest_false true c h = ground (arith, h)
    rest_false false c h = h

length-put_key : (n j : ℕ) (r : List ℕ) (key : ℕ) → length (put_key n j r key) ≡ length r
unfolding put_key
length-put_key zero j r key = refl
length-put_key (suc n) j r key =
    choose (λ (q : List ℕ). length q ≡ length r) (get_or r j 0 == 0) (set r j key) _
      (length-set r j key) (length-put_key n (j + 1) r key)

length-merge_key : (r : List ℕ) (key : ℕ) → length (merge_key r key) ≡ length r
unfolding merge_key
length-merge_key r key =
    choose (λ (q : List ℕ). length q ≡ length r) _ r (put_key 6 2 r key) refl
      (length-put_key 6 2 r key)

merge_key_full : (r : List ℕ) (key : ℕ) → has_key 6 2 r 0 ≡ false → merge_key r key ≡ r
unfolding merge_key
merge_key_full r key h =
    choose (λ (q : List ℕ). q ≡ r) _ r (put_key 6 2 r key) refl (put_key_full 6 2 r key h)

merge_key-Settled :
    (r : List ℕ) (key : ℕ) → 8 ≤ length r → (key == 0) ≡ false → Settled (merge_key r key) key
unfolding merge_key
merge_key-Settled r key room nz = elim (Bool-cases (has_key 6 2 r key)) [
  | inl h ↦ rw (nz, h) (inl h)
  | inr h ↦ elim (Bool-cases (has_key 6 2 r 0)) [
    | inl z ↦ rw (nz, h) (inl (put_key_lem 6 2 r key (omega (arith, room)) z))
    | inr z ↦ subst (λ (q : List ℕ). Settled q key) (sym (merge_key_full r key z)) (inr z)
  ]
]

Settled-merge_key :
    (r : List ℕ) (key other : ℕ)
    → (key == 0) ≡ false
    → Settled r key
    → Settled (merge_key r other) key
Settled-merge_key r key other nz (inl h) =
    inl (has_key-Keeps 6 2 r (merge_key r other) key (merge_key-Keeps r other) nz h)
Settled-merge_key r key other nz (inr h) =
    subst (λ (q : List ℕ). Settled q key) (sym (merge_key_full r other h)) (inr h)

Settled-merge_keys :
    (r : List ℕ) (key : ℕ) (keys : List ℕ)
    → (key == 0) ≡ false
    → Settled r key
    → Settled (merge_keys r keys) key
unfolding merge_keys
Settled-merge_keys r key [] nz h = h
Settled-merge_keys r key (other ∷ keys) nz h =
    Settled-merge_keys (merge_key r other) key keys nz (Settled-merge_key r key other nz h)

merge_keys-Settled :
    (r keys : List ℕ) (p : ℕ)
    → 8 ≤ length r
    → (get_or keys p 0 == 0) ≡ false
    → Settled (merge_keys r keys) (get_or keys p 0)
unfolding merge_keys
merge_keys-Settled r [] p room nz = ground (arith, nz)
merge_keys-Settled r (key ∷ keys) zero room nz =
    Settled-merge_keys (merge_key r key) key keys nz (merge_key-Settled r key room nz)
merge_keys-Settled r (key ∷ keys) (suc p) room nz =
    merge_keys-Settled (merge_key r key) keys p (omega (arith, room, length-merge_key r key)) nz

-- A keyboard report of at least eight bytes into which the injected keys are merged: an injected key, at
-- place `p`, is in the report afterwards unless the report has no free place, and a key that the device
-- reported, at byte `k`, stays where it is.
pub keyboard_merged :
    (i : Inject) (report : List ℕ) (len p k : ℕ)
    → 8 ≤ length report
    → 8 ≤ len
    → (get_or i.kb_keys p 0 == 0) ≡ false
    → 2 ≤ k
    → (get_or report k 0 == 0) ≡ false
    → Settled (usb_merge_keyboard i report len) (get_or i.kb_keys p 0)
      × (get_or (usb_merge_keyboard i report len) k 0 ≡ get_or report k 0)
unfolding usb_merge_keyboard
keyboard_merged i report len p k room enough nz low held =
    let with_modifier = set report 0 (bit_or (get_or report 0 0) i.kb_modifier) in
    let e : ltb len 8 ≡ false = ground (arith, enough) in
    let same =
      get_or-set_ne report 0 k (bit_or (get_or report 0 0) i.kb_modifier) 0
        (λ z. omega (arith, z, low)) in
    rw e (
      merge_keys-Settled with_modifier i.kb_keys p
          (omega (arith, room, length-set report 0 (bit_or (get_or report 0 0) i.kb_modifier))) nz,
      merge_keys-Keeps with_modifier i.kb_keys k (ap (λ (q : ℕ). q == 0) same ∙ held) ∙ same,
    )
