-- ===== src/Hid/Derive/Wide.antt =====
-- The limits of fields wider than a word of 16 bits.
use hurra_v.Base.{
  ℕ, suc, zero, ◌+◌, ◌-◌, ◌*◌, ◌^◌, ◌≤◌, ◌≡◌, ◌∙◌, ap, refl, arith, ltb, if◌then◌else◌,
}
use hurra_v.Base.Int.{ℤ, pos, negsuc, limit, ◌-ℤ◌, wrap}
use hurra_v.Hid.Derive.{field_max}
use native.Mathlib.Nat.{pow-suc, one-le-pow}

power : (n : ℕ) → 2 ^ (n + 16) ≡ 2 ^ n * 65536
power zero = refl
power (suc n) =
    let e : suc n + 16 ≡ suc (n + 16) = omega arith in
    ap (λ (k : ℕ). 2 ^ k) e ∙ omega (arith, pow-suc 2 (n + 16), pow-suc 2 n, power n)

all_ones : (a p : ℕ) → a ≡ p * 65536 → 1 ≤ p → wrap 16 (pos a -ℤ pos 1) ≡ negsuc 0
all_ones a p e h = ground (arith, e, h)

stuck : (v : ℤ) → limit (negsuc 0) v ≡ pos 1
stuck (pos n) = ground arith
stuck (negsuc n) = ground arith

-- A field of 17 to 31 bits gets the limit -1, by which every value is limited to 1.
pub wide_axis_stuck :
    (size : ℕ) (v : ℤ)
    → 17 ≤ size
    → size ≤ 31
    → (field_max size ≡ negsuc 0) × (limit (field_max size) v ≡ pos 1)
unfolding field_max
wide_axis_stuck size v low high =
    let n = size - 17 in
    let a : 2 ^ (size - 1) ≡ 2 ^ n * 65536 = ap (λ (k : ℕ). 2 ^ k) (omega (arith, low)) ∙ power n in
    let e = all_ones (2 ^ (size - 1)) (2 ^ n) a (one-le-pow n 2 (omega arith)) in
    let g : (if ltb 0 size then wrap 16 (pos (2 ^ (size - 1)) -ℤ pos 1) else pos 0) ≡ negsuc 0 =
      rw e (ground (arith, low)) in
    (g, ap (λ (q : ℤ). limit q v) g ∙ stuck v)
