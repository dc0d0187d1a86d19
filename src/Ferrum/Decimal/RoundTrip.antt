-- ===== src/Ferrum/Decimal/RoundTrip.antt =====
-- A number that is printed is read back.
use hurra_v.Base.{
  ℕ, zero, suc, ◌+◌, ◌-◌, ◌*◌, ◌/◌, ◌%◌, ◌^◌, ◌≤◌, ◌<◌, ◌≡◌, inl, inr, refl, ap, ◌∙◌, arith, Bool,
  true, false, ◌||◌, Option, none, some, Bool-cases,
}
use hurra_v.Base.{List, [], ◌∷◌, ltb, ◌==◌, if◌then◌else◌}
use hurra_v.Base.Int.{ℤ, pos, negsuc, plus, minus}
use native.Mathlib.Nat.{pow-suc}
use hurra_v.Ferrum.Decimal.{digits, signed, parse_int, digits_of, magnitude, format_int}

-- One digit is read, if the number that it makes fits 32 bits.
digits_step : (u : ℕ) (s : List ℕ) → u < 2 ^ 32 → digits (u / 10) ((b'0' + u % 10) ∷ s) ≡ digits u s
unfolding digits
digits_step u s h =
    let e : u / 10 * 10 + (b'0' + u % 10 - b'0') ≡ u = omega arith in
    let f : (ltb (b'0' + u % 10) b'0'
          || ltb b'9' (b'0' + u % 10)
          || ltb ((0xffffffff - (b'0' + u % 10 - b'0')) / 10) (u / 10))
        ≡ false =
      ground (arith, h) in
    rw f (ap (λ (k : ℕ). digits k s) e)

digits-digits_of :
    (fuel u : ℕ) (s : List ℕ)
    → u < 10 ^ fuel
    → u < 2 ^ 32
    → digits 0 (digits_of fuel u s) ≡ digits u s
unfolding digits_of
digits-digits_of zero u s h k = let e : u ≡ 0 = omega (arith, h) in rw e refl
digits-digits_of (suc fuel) u s h k = elim (Bool-cases (u == 0)) [
  | inl e ↦ let z : u ≡ 0 = ground (arith, e) in rw (e, z) refl
  | inr e ↦ rw e (
      digits-digits_of fuel (u / 10) ((b'0' + u % 10) ∷ s) (omega (arith, h, pow-suc 10 fuel))
        (omega (arith, k))
      ∙ digits_step u s k)
]

abbrev pub IsDigit : ℕ → Type 0
IsDigit c = (b'0' ≤ c) × (c ≤ b'9')

-- A list that begins with a digit.
pub data Starts : List ℕ → Type 0 where
  starts : (c : ℕ) (s : List ℕ) → IsDigit c → Starts (c ∷ s)

digits_of-Starts : (fuel u : ℕ) (s : List ℕ) → Starts s → Starts (digits_of fuel u s)
unfolding digits_of
digits_of-Starts zero u s h = h
digits_of-Starts (suc fuel) u s h = elim (Bool-cases (u == 0)) [
  | inl e ↦ rw e h
  | inr e ↦
      rw e (
        digits_of-Starts fuel (u / 10) ((b'0' + u % 10) ∷ s)
          (starts _ s (omega arith, omega arith)))
]

digits_of-grows : (u : ℕ) → (u == 0) ≡ false → Starts (digits_of 10 u [])
unfolding digits_of
digits_of-grows u e =
    rw e
      (digits_of-Starts 9 (u / 10) ((b'0' + u % 10) ∷ []) (starts _ [] (omega arith, omega arith)))

magnitude_lem : (u : ℕ) → u < 2 ^ 32 → (digits 0 (magnitude u) ≡ some u) × Starts (magnitude u)
unfolding magnitude digits
magnitude_lem u h = elim (Bool-cases (u == 0)) [
  | inl e ↦
      let z : u ≡ 0 = ground (arith, e) in rw z (refl, starts b'0' [] (omega arith, omega arith))
  | inr e ↦ rw e (digits-digits_of 10 u [] (omega (arith, h)) h, digits_of-grows u e)
]

pub magnitude-Starts : (u : ℕ) → Starts (magnitude u)
unfolding magnitude
magnitude-Starts u = elim (Bool-cases (u == 0)) [
  | inl e ↦ rw e (starts b'0' [] (omega arith, omega arith))
  | inr e ↦ rw e (digits_of-grows u e)
]

-- What `signed` makes of a magnitude.
signed_lem :
    (negative : Bool) (s : List ℕ) (u : ℕ) (r : Option ℤ)
    → digits 0 s ≡ some u
    → Starts s
    → (if negative
        then (if ltb 0x80000000 u
            then none
            else if u == 0
            then some (pos 0)
            else some (negsuc (u - 1)))
        else if ltb 0x7fffffff u
        then none
        else some (pos u))
      ≡ r
    → signed negative s ≡ r
unfolding signed
signed_lem negative _ u r e (starts c s d) h = rw (e, signed) h

unsigned_lem : (s : List ℕ) → Starts s → parse_int s ≡ signed false s
unfolding parse_int
unsigned_lem _ (starts c s d) =
    let a : (c == b'-') ≡ false = ground (arith, d) in
    let b : (c == b'+') ≡ false = ground (arith, d) in rw (a, b) refl

-- An integer of 32 bits, printed and parsed.
pub parse_int-format_int :
    (v : ℤ) → plus v < 2 ^ 31 → minus v ≤ 2 ^ 31 → parse_int (format_int v) ≡ some v
unfolding format_int parse_int
parse_int-format_int (pos n) h k =
    let m = magnitude_lem n (omega (arith, h)) in
    unsigned_lem (magnitude n) m.1
    ∙ signed_lem false (magnitude n) n (some (pos n)) m.0 m.1 (ground (arith, h))
parse_int-format_int (negsuc n) h k =
    let m = magnitude_lem (n + 1) (omega (arith, k)) in
    let e : n + 1 - 1 ≡ n = omega arith in
    signed_lem true (magnitude (n + 1)) (n + 1) (some (negsuc n)) m.0 m.1 (
      let f : ltb 0x80000000 (n + 1) ≡ false = ground (arith, k) in
      let g : (n + 1 == 0) ≡ false = ground arith in rw (f, g, e) refl)
