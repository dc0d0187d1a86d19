-- ===== src/Serial/Cursor.antt =====
-- The write cursor and the read cursor of src/desc_serialize.c.
use hurra_v.Base.{
  ℕ, ◌+◌, ◌-◌, ◌*◌, ◌/◌, ◌%◌, ◌^◌, ◌≤◌, ◌<◌, ◌≡◌, refl, ap, ◌∙◌, arith, Bool, true, false, not,
  ◌||◌, bit_or, bit_or_low_high, ◌⊎◌, inl, inr, Bool-cases, subst, le→ltb, ◌&&◌,
}
use hurra_v.Base.{
  List, [], ◌∷◌, ◌++◌, append_assoc, length, take, drop, replicate, length-append, take-append,
  drop-append, ltb, if◌then◌else◌,
}

-- `wcur_t`: the bytes below `off`.
pub record Writer : Type 0 where
  pub out : List ℕ
  pub cap : ℕ
  pub ok : Bool

pub w_blob : List ℕ → Writer → Writer
w_blob src w =
    if not w.ok || ltb w.cap (length w.out + length src)
    then record w { ok = false }
    else record w { out = w.out ++ src }

pub w_u8 : ℕ → Writer → Writer
w_u8 v w =
    if not w.ok || ltb w.cap (length w.out + 1)
    then record w { ok = false }
    else record w { out = w.out ++ (v ∷ []) }

-- One write after another.
infixr 5 ◌⨾◌
pub ◌⨾◌ : (Writer → Writer) → (Writer → Writer) → Writer → Writer
(f ⨾ g) w = g (f w)

pub w_u16 : ℕ → Writer → Writer
w_u16 v = w_u8 (v % 256) ⨾ w_u8 (v / 256 % 256)

-- What a piece of code writes: these bytes, or a cursor that has failed where they do not fit.
pub record Emits (f : Writer → Writer) (bs : List ℕ) : Type 0 where
  pub fits :
      (w : Writer)
      → w.ok ≡ true
      → length w.out + length bs ≤ w.cap
      → f w ≡ record w { out = w.out ++ bs }
  pub fails :
      (w : Writer)
      → (w.ok ≡ true → (length w.out ≤ w.cap) × (w.cap < length w.out + length bs))
      → (f w).ok ≡ false

pub blob-Emits : (src : List ℕ) → Emits (w_blob src) src
unfolding w_blob
blob-Emits src = record { fits = λ w o h. ground (arith, o, h); fails = λ w h. ground (arith, h) }

pub u8-Emits : (v : ℕ) → Emits (w_u8 v) (v ∷ [])
unfolding w_u8
u8-Emits v = record { fits = λ w o h. ground (arith, o, h); fails = λ w h. ground (arith, h) }

then_fits :
    (f g : Writer → Writer) (xs ys : List ℕ)
    → Emits f xs
    → Emits g ys
    → (w : Writer) → w.ok ≡ true
    → length w.out + length (xs ++ ys) ≤ w.cap
    → g (f w) ≡ record w { out = w.out ++ (xs ++ ys) }
then_fits f g xs ys ef eg w o h =
    let n = length-append xs ys in
    let first = ef.fits w o (omega (arith, n)) in
    let m = length-append w.out xs in
    let second = eg.fits (record w { out = w.out ++ xs }) o (omega (arith, m, n)) in
    ap g first ∙ (second ∙ ap (λ (q : List ℕ). record w { out = q }) (append_assoc w.out xs ys))

room :
    (w : Writer) (xs : List ℕ)
    → ((w.ok ≡ true) × (length w.out + length xs ≤ w.cap))
      ⊎ (w.ok ≡ true → w.cap < length w.out + length xs)
room w xs = elim (Bool-cases (w.ok && not (ltb w.cap (length w.out + length xs)))) [
  | inl h ↦ inl (ground (arith, h))
  | inr h ↦ inr (λ o. ground (arith, h, o))
]

then_fails :
    (f g : Writer → Writer) (xs ys : List ℕ)
    → Emits f xs
    → Emits g ys
    → (w : Writer)
    → (w.ok ≡ true → (length w.out ≤ w.cap) × (w.cap < length w.out + length (xs ++ ys)))
    → (g (f w)).ok ≡ false
then_fails f g xs ys ef eg w h = elim (room w xs) [
  | inl r ↦
      let first = ef.fits w r.0 r.1 in
      let late : w.ok ≡ true
          → (length (w.out ++ xs) ≤ w.cap) × (w.cap < length (w.out ++ xs) + length ys) =
        λ o. (
          omega (arith, r.1, length-append w.out xs),
          omega (arith, (h r.0).1, length-append w.out xs, length-append xs ys),
        ) in
      ap (λ (q : Writer). (g q).ok) first ∙ eg.fails (record w { out = w.out ++ xs }) late
  | inr r ↦ eg.fails (f w) (λ o. ground (arith, o, ef.fails w (λ k. ((h k).0, r k))))
]

pub then-Emits :
    {f g : Writer → Writer} {xs ys : List ℕ} → Emits f xs → Emits g ys → Emits (f ⨾ g) (xs ++ ys)
unfolding ◌⨾◌
then-Emits {f} {g} {xs} {ys} ef eg = record {
  fits = λ w o h. then_fits f g xs ys ef eg w o h;
  fails = λ w h. then_fails f g xs ys ef eg w h;
}

pub u16-Emits : (v : ℕ) → Emits (w_u16 v) (v % 256 ∷ v / 256 % 256 ∷ [])
unfolding w_u16
u16-Emits v = then-Emits (u8-Emits (v % 256)) (u8-Emits (v / 256 % 256))

-- `rcur_t`: the bytes from `off` up to `len`.
pub record Reader : Type 0 where
  pub rest : List ℕ
  pub ok : Bool

abbrev pub Read : Type 0 → Type 0
Read A = Reader → A × Reader

infixl 5 ◌>>=◌
pub ◌>>=◌ : {A B : Type 0} → Read A → (A → Read B) → Read B
(m >>= k) r = let (a, after) = m r in k a after

pub done : {A : Type 0} → A → Read A
done a r = (a, r)

pub r_u8 : Read ℕ
r_u8 r = elim r.rest [
  | [] ↦ (0, record r { ok = false })
  | b ∷ bs ↦ if r.ok then (b, record r { rest = bs }) else (0, r)
]

pub r_u16 : Read ℕ
r_u16 = r_u8 >>= λ lo. r_u8 >>= λ hi. done (bit_or lo (hi * 2 ^ 8))

-- The array that `memset` has cleared, with `n` bytes copied to its start.
pub r_blob : ℕ → ℕ → Read (List ℕ)
r_blob n cap r =
    if not r.ok || ltb cap n || ltb (length r.rest) n
    then (replicate cap 0, record r { ok = false })
    else (take n r.rest ++ replicate (cap - n) 0, record r { rest = drop n r.rest })

abbrev pub ready : List ℕ → Reader
ready bs = record { rest = bs; ok = true }

-- What a piece of code reads, from these bytes and any after them.
pub record Reads {A : Type 0} (m : Read A) (bs : List ℕ) (a : A) : Type 0 where
  pub reads : (rest : List ℕ) → m (ready (bs ++ rest)) ≡ (a, ready rest)

pub done-Reads : {A : Type 0} (a : A) → Reads (done a) [] a
unfolding done
done-Reads a = record { reads = λ rest. refl }

pub then-Reads :
    {A B : Type 0} {m : Read A} (k : A → Read B) {xs ys : List ℕ} {a : A} {b : B}
    → Reads m xs a
    → Reads (k a) ys b
    → Reads (m >>= k) (xs ++ ys) b
unfolding ◌>>=◌
then-Reads k {xs} {ys} rm rk = record {
  reads = λ rest. rw (append_assoc xs ys rest, rm.reads (ys ++ rest)) (rk.reads rest);
}

pub u8-Reads : (b : ℕ) → Reads r_u8 (b ∷ []) b
unfolding r_u8
u8-Reads b = record { reads = λ rest. refl }

pub u16-Reads : (v : ℕ) → v < 2 ^ 16 → Reads r_u16 (v % 256 ∷ v / 256 % 256 ∷ []) v
unfolding r_u16
u16-Reads v h =
    let e : bit_or (v % 256) (v / 256 % 256 * 2 ^ 8) ≡ v =
      bit_or_low_high 8 (v / 256 % 256) (v % 256) (omega arith) ∙ omega arith in
    then-Reads _ (u8-Reads (v % 256)) (
      then-Reads _ (u8-Reads (v / 256 % 256))
        (subst (Reads (done (bit_or (v % 256) (v / 256 % 256 * 2 ^ 8))) []) e (done-Reads _)))

pub blob-Reads :
    (n cap : ℕ) (bs : List ℕ)
    → length bs ≡ n
    → n ≤ cap
    → Reads (r_blob n cap) bs (bs ++ replicate (cap - n) 0)
unfolding r_blob
blob-Reads n cap bs e h = record {
  reads = λ rest.
      rw
        (
          take-append n bs rest e,
          drop-append n bs rest e,
          length-append bs rest,
          e,
          le→ltb cap n h,
          le→ltb (n + length rest) n (omega arith),
        )
        refl;
}
