-- ===== src/Base/Bits.antt =====
-- `&`, `|` and `^` of C on binary digits: the equation for the lowest digit, and what follows from
-- it for masks, for fields that do not overlap, and for a repeated `^`.
use Prim.Native.Nat.{ℕ, zero, suc, ◌+◌, ◌-◌, ◌*◌, ◌/◌, ◌%◌, ◌^◌, ◌≤◌, ◌<◌, min, max}
use Prim.Native.Nat.{bit_and, bit_or, bit_xor, digits, bitwise, differ}
use Prim.Native.Nat.{bit_and-bitwise, bit_or-bitwise, bit_xor-bitwise}
use mathlib.Core.Path.{◌≡◌, refl, sym, ap, ◌∙◌}
use native.Mathlib.Nat.{pow-suc, one-le-pow, div-add-mod', mod-lt}
use native.Mathlib.Decide.{dec_le}
use native.Mathlib.Omega.{arith}

module _ (base : ℕ → ℕ) (op : ℕ → ℕ → ℕ) where
  -- One unit of fuel past the first number is not used.
  spare_fuel : (n a b : ℕ) → a ≤ n → digits base op (suc n) a b ≡ digits base op n a b
  spare_fuel (suc n) zero b h = refl
  spare_fuel zero zero b h = refl
  spare_fuel zero (suc a) b h = elim h [ ]
  spare_fuel (suc n) (suc a) b h =
      let half = spare_fuel n (suc a / 2) (b / 2) (omega arith) in
      ap (λ (t : ℕ). t * 2 + op (suc a % 2) (b % 2)) half

  trim_fuel : (n a b : ℕ) → a ≤ n → digits base op n a b ≡ bitwise base op a b
  trim_fuel zero a b h = let e : a ≡ 0 = omega arith in rw e
  trim_fuel (suc n) a b h = elim (dec_le a n) [
    | yes below ↦ spare_fuel n a b below ∙ trim_fuel n a b below
    | no above ↦ let e : a ≡ suc n = omega arith in rw e
  ]

-- The digits of a number that is not zero, the lowest apart.
lowest_digit :
    (base : ℕ → ℕ) (op : ℕ → ℕ → ℕ) (x y : ℕ)
    → op (suc x % 2) (y % 2) + bitwise base op (suc x / 2) (y / 2) * 2 ≡ bitwise base op (suc x) y
lowest_digit base op x y =
    let half = trim_fuel base op x (suc x / 2) (y / 2) (omega arith) in omega (arith, half)

pub bit_and_step : (x y : ℕ) → bit_and x y ≡ min (x % 2) (y % 2) + bit_and (x / 2) (y / 2) * 2
bit_and_step x y = omega (arith, bit_and-bitwise x y, bit_and-bitwise (x / 2) (y / 2), unbit x)
  where
    unbit :
        (x : ℕ)
        → bitwise (λ _. 0) min x y ≡ min (x % 2) (y % 2) + bitwise (λ _. 0) min (x / 2) (y / 2) * 2
    unbit zero = omega arith
    unbit (suc x) = sym (lowest_digit (λ _. 0) min x y)

pub bit_or_step : (x y : ℕ) → bit_or x y ≡ max (x % 2) (y % 2) + bit_or (x / 2) (y / 2) * 2
bit_or_step x y = omega (arith, bit_or-bitwise x y, bit_or-bitwise (x / 2) (y / 2), unbit x)
  where
    unbit :
        (x : ℕ)
        → bitwise (λ w. w) max x y ≡ max (x % 2) (y % 2) + bitwise (λ w. w) max (x / 2) (y / 2) * 2
    unbit zero = omega arith
    unbit (suc x) = sym (lowest_digit (λ w. w) max x y)

pub bit_xor_step : (x y : ℕ) → bit_xor x y ≡ differ (x % 2) (y % 2) + bit_xor (x / 2) (y / 2) * 2
bit_xor_step x y = omega (arith, bit_xor-bitwise x y, bit_xor-bitwise (x / 2) (y / 2), unbit x)
  where
    unbit :
        (x : ℕ)
        → bitwise (λ w. w) differ x y
          ≡ differ (x % 2) (y % 2) + bitwise (λ w. w) differ (x / 2) (y / 2) * 2
    unbit zero = omega arith
    unbit (suc x) = sym (lowest_digit (λ w. w) differ x y)

-- Two binary digits: their difference is one digit, and taking it twice gives the first back.
differ_digits : (x y : ℕ) → x < 2 → y < 2 → (differ x y < 2) × (differ (differ x y) y ≡ x)
differ_digits zero zero p q = (omega arith, refl)
differ_digits zero (suc zero) p q = (omega arith, refl)
differ_digits (suc zero) zero p q = (omega arith, refl)
differ_digits (suc zero) (suc zero) p q = (omega arith, refl)
differ_digits zero (suc (suc y)) p q = absurd (omega arith)
differ_digits (suc zero) (suc (suc y)) p q = absurd (omega arith)
differ_digits (suc (suc x)) y p q = absurd (omega arith)

half-lt : (n k : ℕ) → n < 2 ^ suc k → n / 2 < 2 ^ k
half-lt n k h = omega (arith, pow-suc 2 k)

-- The lowest digit and the rest of a `^`.
pub bit_xor_parts :
    (a b : ℕ)
    → (bit_xor a b / 2 ≡ bit_xor (a / 2) (b / 2)) × (bit_xor a b % 2 ≡ differ (a % 2) (b % 2))
bit_xor_parts a b =
    let d = differ_digits (a % 2) (b % 2) (omega arith) (omega arith) in
    (omega (arith, bit_xor_step a b, d.0), omega (arith, bit_xor_step a b, d.0))

-- `(a ^ b) ^ b` is `a`.
pub bit_xor_twice : (n a b : ℕ) → a < 2 ^ n → b < 2 ^ n → bit_xor (bit_xor a b) b ≡ a
bit_xor_twice zero a b p q =
    let ea : a ≡ 0 = omega arith in let eb : b ≡ 0 = omega arith in rw (ea, eb)
bit_xor_twice (suc n) a b p q =
    let h = bit_xor_parts a b in
    bit_xor_step (bit_xor a b) b
    ∙ rw (h.0, h.1, bit_xor_twice n (a / 2) (b / 2) (half-lt a n p) (half-lt b n q))
        (omega (arith, (differ_digits (a % 2) (b % 2) (omega arith) (omega arith)).1))

pub bit_xor-lt : (n a b : ℕ) → a < 2 ^ n → b < 2 ^ n → bit_xor a b < 2 ^ n
bit_xor-lt zero a b p q =
    let ea : a ≡ 0 = omega arith in let eb : b ≡ 0 = omega arith in rw (ea, eb) (omega arith)
bit_xor-lt (suc n) a b p q =
    let d = differ_digits (a % 2) (b % 2) (omega arith) (omega arith) in
    let rest = bit_xor-lt n (a / 2) (b / 2) (half-lt a n p) (half-lt b n q) in
    omega (arith, bit_xor_step a b, d.0, rest, pow-suc 2 n)

-- With zero on the right, by halving.
zero_right : (bound m : ℕ) → m ≤ bound → (bit_or m 0 ≡ m) × (bit_and m 0 ≡ 0)
zero_right bound zero h = (refl, refl)
zero_right zero (suc m) h = absurd (omega arith)
zero_right (suc bound) (suc m) h =
    let half = zero_right bound (suc m / 2) (omega arith) in
    (omega (arith, bit_or_step (suc m) 0, half.0), omega (arith, bit_and_step (suc m) 0, half.1))

pub bit_or-zero : (m : ℕ) → bit_or m 0 ≡ m
bit_or-zero m = (zero_right m m (omega arith)).0

pub zero-bit_or : (m : ℕ) → bit_or 0 m ≡ m
zero-bit_or m = bit_or-bitwise 0 m

pub bit_and-zero : (m : ℕ) → bit_and m 0 ≡ 0
bit_and-zero m = (zero_right m m (omega arith)).1

pub mul-pow-suc : (c k : ℕ) → c * 2 ^ suc k ≡ 2 * (c * 2 ^ k)
mul-pow-suc c k = let double = pow-suc 2 k in omega (arith, ap (◌*◌ c) double)

-- A high field beside a low one that fits below it: `|` is a sum, in either order.
pub bit_or_high_low : (k q r : ℕ) → r < 2 ^ k → bit_or (q * 2 ^ k) r ≡ q * 2 ^ k + r
bit_or_high_low zero q r h = let e : r ≡ 0 = omega arith in rw e (bit_or-zero (q * 1) ∙ omega arith)
bit_or_high_low (suc k) q r h =
    let e = mul-pow-suc q k in
    let half : q * 2 ^ suc k / 2 ≡ q * 2 ^ k = omega (arith, e) in
    bit_or_step (q * 2 ^ suc k) r
    ∙ rw (half, bit_or_high_low k q (r / 2) (half-lt r k h)) (omega (arith, e))

pub bit_or_low_high : (k q r : ℕ) → r < 2 ^ k → bit_or r (q * 2 ^ k) ≡ q * 2 ^ k + r
bit_or_low_high zero q r h = let e : r ≡ 0 = omega arith in rw e (zero-bit_or (q * 1) ∙ omega arith)
bit_or_low_high (suc k) q r h =
    let e = mul-pow-suc q k in
    let half : q * 2 ^ suc k / 2 ≡ q * 2 ^ k = omega (arith, e) in
    bit_or_step r (q * 2 ^ suc k)
    ∙ rw (half, bit_or_low_high k q (r / 2) (half-lt r k h)) (omega (arith, e))

bit_and_low : (k q r : ℕ) → r < 2 ^ k → bit_and (q * 2 ^ k + r) (2 ^ k - 1) ≡ r
bit_and_low zero q r h = bit_and-zero (q * 1 + r) ∙ omega arith
bit_and_low (suc k) q r h =
    let e = mul-pow-suc q k in
    let p = pow-suc 2 k in
    let pos = one-le-pow k 2 (omega arith) in
    let mask : (2 ^ suc k - 1) / 2 ≡ 2 ^ k - 1 = omega (arith, p, pos) in
    let half : (q * 2 ^ suc k + r) / 2 ≡ q * 2 ^ k + r / 2 = omega (arith, e) in
    bit_and_step (q * 2 ^ suc k + r) (2 ^ suc k - 1)
    ∙ rw (half, mask, bit_and_low k q (r / 2) (half-lt r k h)) (omega (arith, e, p, pos))

-- A mask of the `k` lowest bits is the remainder by `2 ^ k`.
pub bit_and_mask : (k a : ℕ) → bit_and a (2 ^ k - 1) ≡ a % 2 ^ k
bit_and_mask k a =
    let pos = one-le-pow k 2 (omega arith) in
    ap (λ (t : ℕ). bit_and t (2 ^ k - 1)) (sym (div-add-mod' a (2 ^ k)))
    ∙ bit_and_low k (a / 2 ^ k) (a % 2 ^ k) (mod-lt a pos)

bit_and_single : (k q r : ℕ) → r < 2 ^ k → bit_and (q * 2 ^ k + r) (2 ^ k) ≡ q % 2 * 2 ^ k
bit_and_single zero q r h =
    bit_and_step (q * 1 + r) 1 ∙ omega (arith, bit_and-zero ((q * 1 + r) / 2))
bit_and_single (suc k) q r h =
    let e = mul-pow-suc q k in
    let p = pow-suc 2 k in
    let mask : 2 ^ suc k / 2 ≡ 2 ^ k = omega (arith, p) in
    let half : (q * 2 ^ suc k + r) / 2 ≡ q * 2 ^ k + r / 2 = omega (arith, e) in
    bit_and_step (q * 2 ^ suc k + r) (2 ^ suc k)
    ∙ rw (half, mask, bit_and_single k q (r / 2) (half-lt r k h))
        (omega (arith, e, p, mul-pow-suc (q % 2) k))

-- Bit `k` alone.
pub bit_and_bit : (k a : ℕ) → bit_and a (2 ^ k) ≡ a / 2 ^ k % 2 * 2 ^ k
bit_and_bit k a =
    let pos = one-le-pow k 2 (omega arith) in
    ap (λ (t : ℕ). bit_and t (2 ^ k)) (sym (div-add-mod' a (2 ^ k)))
    ∙ bit_and_single k (a / 2 ^ k) (a % 2 ^ k) (mod-lt a pos)

-- A bit above both numbers is left alone by `^`.
pub bit_xor_above :
    (n a b : ℕ) → a < 2 ^ n → b < 2 ^ n → bit_xor (2 ^ n + a) b ≡ 2 ^ n + bit_xor a b
bit_xor_above zero a b p q =
    let ea : a ≡ 0 = omega arith in let eb : b ≡ 0 = omega arith in rw (ea, eb)
bit_xor_above (suc n) a b p q =
    let e = pow-suc 2 n in
    let half : (2 ^ suc n + a) / 2 ≡ 2 ^ n + a / 2 = omega (arith, e) in
    let low : (2 ^ suc n + a) % 2 ≡ a % 2 = omega (arith, e) in
    bit_xor_step (2 ^ suc n + a) b
    ∙ rw (half, low, bit_xor_above n (a / 2) (b / 2) (half-lt a n p) (half-lt b n q))
        (omega (arith, e, bit_xor_step a b))

differ_comm : (x y : ℕ) → x < 2 → y < 2 → differ x y ≡ differ y x
differ_comm zero zero p q = refl
differ_comm zero (suc zero) p q = refl
differ_comm (suc zero) zero p q = refl
differ_comm (suc zero) (suc zero) p q = refl
differ_comm zero (suc (suc y)) p q = absurd (omega arith)
differ_comm (suc zero) (suc (suc y)) p q = absurd (omega arith)
differ_comm (suc (suc x)) y p q = absurd (omega arith)

pub bit_xor_comm : (n a b : ℕ) → a < 2 ^ n → b < 2 ^ n → bit_xor a b ≡ bit_xor b a
bit_xor_comm zero a b p q =
    let ea : a ≡ 0 = omega arith in let eb : b ≡ 0 = omega arith in rw (ea, eb)
bit_xor_comm (suc n) a b p q = omega (
  arith,
  bit_xor_step a b,
  bit_xor_step b a,
  bit_xor_comm n (a / 2) (b / 2) (half-lt a n p) (half-lt b n q),
  differ_comm (a % 2) (b % 2) (omega arith) (omega arith),
)

-- `^` by a fixed number is injective, on either side.
pub bit_xor_inj_right :
    (n a b c : ℕ) → a < 2 ^ n → b < 2 ^ n → c < 2 ^ n → bit_xor a c ≡ bit_xor b c → a ≡ b
bit_xor_inj_right n a b c ha hb hc e =
    sym (bit_xor_twice n a c ha hc) ∙ (ap (λ (t : ℕ). bit_xor t c) e ∙ bit_xor_twice n b c hb hc)

pub bit_xor_inj_left :
    (n a b c : ℕ) → a < 2 ^ n → b < 2 ^ n → c < 2 ^ n → bit_xor c a ≡ bit_xor c b → a ≡ b
bit_xor_inj_left n a b c ha hb hc e =
    bit_xor_inj_right n a b c ha hb hc (bit_xor_comm n a c ha hc ∙ (e ∙ bit_xor_comm n c b hc hb))
