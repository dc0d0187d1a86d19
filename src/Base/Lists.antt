-- ===== src/Base/Lists.antt =====
-- C arrays as lists, measured and indexed by native numbers; `memcpy` as `copy` and `slice`.
use Prim.Native.Nat.{ℕ, zero, suc, ◌+◌, ◌-◌, ◌≤◌, ◌<◌, min}
use mathlib.Core.Path.{◌≡◌, refl, ap}
use mathlib.Core.Logic.{◌≢◌}
use mathlib.Core.Option.{Option, none, some}
use mathlib.Core.List.{map, List, [], ◌∷◌, ◌++◌, append_assoc}
use native.Mathlib.Omega.{arith}

module _ {ℓ} {A : Type ℓ} where
  abbrev pub length : List A → ℕ
  length [] = 0
  length (x ∷ xs) = suc (length xs)

  abbrev pub get_or : List A → ℕ → A → A
  get_or [] i d = d
  get_or (x ∷ xs) zero d = x
  get_or (x ∷ xs) (suc i) d = get_or xs i d

  abbrev pub get_elem? : List A → ℕ → Option A
  get_elem? [] i = none
  get_elem? (x ∷ xs) zero = some x
  get_elem? (x ∷ xs) (suc i) = get_elem? xs i

  -- A write out of bounds changes nothing.
  abbrev pub set : List A → ℕ → A → List A
  set [] i v = []
  set (x ∷ xs) zero v = v ∷ xs
  set (x ∷ xs) (suc i) v = x ∷ set xs i v

  abbrev pub take : ℕ → List A → List A
  take zero xs = []
  take (suc n) [] = []
  take (suc n) (x ∷ xs) = x ∷ take n xs

  abbrev pub drop : ℕ → List A → List A
  drop zero xs = xs
  drop (suc n) [] = []
  drop (suc n) (x ∷ xs) = drop n xs

  abbrev pub replicate : ℕ → A → List A
  replicate zero a = []
  replicate (suc n) a = a ∷ replicate n a

  -- `n` elements from index `i` on.
  abbrev pub slice : List A → ℕ → ℕ → List A
  slice xs i n = take n (drop i xs)

  -- `memcpy(&buf[i], src, length src)`, for a copy that fits the buffer.
  abbrev pub copy : List A → ℕ → List A → List A
  copy buf i src = take i buf ++ (src ++ drop (i + length src) buf)

  pub length-append : (xs ys : List A) → length (xs ++ ys) ≡ length xs + length ys
  length-append [] ys = omega arith
  length-append (x ∷ xs) ys = omega (arith, length-append xs ys)

  pub length-take : (n : ℕ) (xs : List A) → length (take n xs) ≡ min n (length xs)
  length-take zero xs = omega arith
  length-take (suc n) [] = omega arith
  length-take (suc n) (x ∷ xs) = omega (arith, length-take n xs)

  pub length-drop : (n : ℕ) (xs : List A) → length (drop n xs) ≡ length xs - n
  length-drop zero xs = omega arith
  length-drop (suc n) [] = omega arith
  length-drop (suc n) (x ∷ xs) = omega (arith, length-drop n xs)

  pub length-replicate : (n : ℕ) (a : A) → length (replicate n a) ≡ n
  length-replicate zero a = refl
  length-replicate (suc n) a = ap suc (length-replicate n a)

  pub length-set : (xs : List A) (i : ℕ) (v : A) → length (set xs i v) ≡ length xs
  length-set [] i v = refl
  length-set (x ∷ xs) zero v = refl
  length-set (x ∷ xs) (suc i) v = ap suc (length-set xs i v)

  pub take_zero : (xs : List A) (n : ℕ) → n ≡ 0 → take n xs ≡ []
  take_zero xs zero e = refl
  take_zero xs (suc n) e = absurd (omega arith)

  pub take_all : (n : ℕ) (xs : List A) → length xs ≤ n → take n xs ≡ xs
  take_all zero [] h = refl
  take_all zero (x ∷ xs) h = absurd (omega arith)
  take_all (suc n) [] h = refl
  take_all (suc n) (x ∷ xs) h = ap (◌∷◌ x) (take_all n xs (omega arith))

  pub take-append : (n : ℕ) (xs ys : List A) → length xs ≡ n → take n (xs ++ ys) ≡ xs
  take-append zero [] ys e = refl
  take-append zero (x ∷ xs) ys e = absurd (omega arith)
  take-append (suc n) [] ys e = absurd (omega arith)
  take-append (suc n) (x ∷ xs) ys e = ap (◌∷◌ x) (take-append n xs ys (omega arith))

  pub drop-append : (n : ℕ) (xs ys : List A) → length xs ≡ n → drop n (xs ++ ys) ≡ ys
  drop-append zero [] ys e = refl
  drop-append zero (x ∷ xs) ys e = absurd (omega arith)
  drop-append (suc n) [] ys e = absurd (omega arith)
  drop-append (suc n) (x ∷ xs) ys e = drop-append n xs ys (omega arith)

  -- A prefix in two pieces; the total is a variable, since `m + n` is stuck.
  pub take-add : (m n k : ℕ) (xs : List A) → m + n ≡ k → take k xs ≡ take m xs ++ slice xs m n
  take-add zero n k xs e = ap (λ j. take j xs) (omega arith)
  take-add (suc m) n zero xs e = absurd (omega arith)
  take-add (suc m) zero (suc k) [] e = refl
  take-add (suc m) (suc n) (suc k) [] e = refl
  take-add (suc m) n (suc k) (x ∷ xs) e = ap (◌∷◌ x) (take-add m n k xs (omega arith))

  pub length-slice : (xs : List A) (i n : ℕ) → i + n ≤ length xs → length (slice xs i n) ≡ n
  length-slice xs i n h = omega (arith, length-take n (drop i xs), length-drop i xs)

  pub length-copy :
      (buf : List A) (i : ℕ) (src : List A)
      → i + length src ≤ length buf
      → length (copy buf i src) ≡ length buf
  length-copy buf i src h = omega (
    arith,
    length-append (take i buf) (src ++ drop (i + length src) buf),
    length-append src (drop (i + length src) buf),
    length-take i buf,
    length-drop (i + length src) buf,
  )

  -- Up to the end of what was written, a buffer is its old prefix and the copied bytes.
  pub take-copy :
      (buf : List A) (i k : ℕ) (src : List A)
      → i + length src ≡ k
      → k ≤ length buf
      → take k (copy buf i src) ≡ take i buf ++ src
  take-copy buf i k src e h = rw (← append_assoc (take i buf) src (drop (i + length src) buf)) (
      take-append k (take i buf ++ src) (drop (i + length src) buf)
        (omega (arith, length-append (take i buf) src, length-take i buf)))

  pub get_or-set_self :
      (xs : List A) (i : ℕ) (v d : A) → i < length xs → get_or (set xs i v) i d ≡ v
  get_or-set_self [] i v d h = absurd (omega arith)
  get_or-set_self (x ∷ xs) zero v d h = refl
  get_or-set_self (x ∷ xs) (suc i) v d h = get_or-set_self xs i v d (omega arith)

  pub get_or-set_ne :
      (xs : List A) (i j : ℕ) (v d : A) → i ≢ j → get_or (set xs i v) j d ≡ get_or xs j d
  get_or-set_ne [] i j v d h = refl
  get_or-set_ne (x ∷ xs) zero zero v d h = absurd (h refl)
  get_or-set_ne (x ∷ xs) zero (suc j) v d h = refl
  get_or-set_ne (x ∷ xs) (suc i) zero v d h = refl
  get_or-set_ne (x ∷ xs) (suc i) (suc j) v d h = get_or-set_ne xs i j v d (λ e. h (ap suc e))

  pub take-set : (n i : ℕ) (v : A) (xs : List A) → i < n → take n (set xs i v) ≡ set (take n xs) i v
  take-set zero i v xs h = absurd (omega arith)
  take-set (suc n) i v [] h = refl
  take-set (suc n) zero v (x ∷ xs) h = refl
  take-set (suc n) (suc i) v (x ∷ xs) h = ap (◌∷◌ x) (take-set n i v xs (omega arith))

  pub take-set_above : (n i : ℕ) (v : A) (xs : List A) → n ≤ i → take n (set xs i v) ≡ take n xs
  take-set_above zero i v xs h = refl
  take-set_above (suc n) i v [] h = refl
  take-set_above (suc n) zero v (x ∷ xs) h = absurd (omega arith)
  take-set_above (suc n) (suc i) v (x ∷ xs) h = ap (◌∷◌ x) (take-set_above n i v xs (omega arith))

  pub get_or-take : (n i : ℕ) (d : A) (xs : List A) → i < n → get_or (take n xs) i d ≡ get_or xs i d
  get_or-take zero i d xs h = absurd (omega arith)
  get_or-take (suc n) i d [] h = refl
  get_or-take (suc n) zero d (x ∷ xs) h = refl
  get_or-take (suc n) (suc i) d (x ∷ xs) h = get_or-take n i d xs (omega arith)

  -- An index past the first list; it is a variable, since `length xs + k` is stuck.
  pub get_or-append :
      (xs ys : List A) (n k : ℕ) (d : A) → length xs + k ≡ n → get_or (xs ++ ys) n d ≡ get_or ys k d
  get_or-append [] ys n k d e = ap (λ j. get_or ys j d) (omega arith)
  get_or-append (x ∷ xs) ys zero k d e = absurd (omega arith)
  get_or-append (x ∷ xs) ys (suc n) k d e = get_or-append xs ys n k d (omega arith)

  pub drop_all : (n : ℕ) (xs : List A) → length xs ≤ n → drop n xs ≡ []
  drop_all zero [] h = refl
  drop_all zero (x ∷ xs) h = absurd (omega arith)
  drop_all (suc n) [] h = refl
  drop_all (suc n) (x ∷ xs) h = drop_all n xs (omega arith)

  pub drop-step :
      (xs : List A) (i k : ℕ) (d : A)
      → i + 1 ≡ k
      → i < length xs
      → drop i xs ≡ get_or xs i d ∷ drop k xs
  drop-step [] i k d e h = absurd (omega arith)
  drop-step (x ∷ xs) zero zero d e h = absurd (omega arith)
  drop-step (x ∷ xs) zero (suc k) d e h = ap (λ j. x ∷ drop j xs) {x = 0} (omega arith)
  drop-step (x ∷ xs) (suc i) zero d e h = absurd (omega arith)
  drop-step (x ∷ xs) (suc i) (suc k) d e h = drop-step xs i k d (omega arith) (omega arith)

  -- A write just past a prefix extends the prefix.
  pub take-set_end :
      (n k : ℕ) (xs : List A) (v : A)
      → n + 1 ≡ k
      → n < length xs
      → take k (set xs n v) ≡ take n xs ++ (v ∷ [])
  take-set_end n zero xs v e h = absurd (omega arith)
  take-set_end n (suc k) [] v e h = absurd (omega arith)
  take-set_end zero (suc k) (x ∷ xs) v e h = ap (◌∷◌ v) (take_zero xs k (omega arith))
  take-set_end (suc n) (suc k) (x ∷ xs) v e h =
      ap (◌∷◌ x) (take-set_end n k xs v (omega arith) (omega arith))

pub length-map {ℓ} : {A B : Type ℓ} (f : A → B) (xs : List A) → length (map f xs) ≡ length xs
length-map f [] = refl
length-map f (x ∷ xs) = ap suc (length-map f xs)

-- Every element is below `n`: a range check of a concrete list.
abbrev pub AllBelow : ℕ → List ℕ → Type 0
AllBelow n [] = Unit
AllBelow n (x ∷ xs) = (x < n) × AllBelow n xs

pub get_or-lt : (n : ℕ) (xs : List ℕ) → 0 < n → AllBelow n xs → (i : ℕ) → get_or xs i 0 < n
get_or-lt n [] p h i = p
get_or-lt n (x ∷ xs) p h zero = h.0
get_or-lt n (x ∷ xs) p h (suc i) = get_or-lt n xs p h.1 i
