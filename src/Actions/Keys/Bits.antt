-- ===== src/Actions/Keys/Bits.antt =====
-- The modifier byte, bit by bit.
use hurra_v.Base.{
  ℕ, ◌-◌, ◌%◌, ◌^◌, ◌<◌, ◌≡◌, refl, arith, Bool, true, false, ◌&&◌, ◌||◌, not, bit_and, bit_or,
}
use hurra_v.Base.{ltb, ◌==◌, every, every_lem, ltb→lt}

abbrev pub has_bit : ℕ → ℕ → Bool
has_bit m i = not (bit_and m (2 ^ i) == 0)

same : Bool → Bool → Bool
same true b = b
same false b = not b

same_iff : (a b : Bool) → same a b ≡ true → a ≡ b
unfolding same
same_iff true b h = ground arith
same_iff false b h = ground arith

-- Every byte and every pair of bits.
table :
    every 256 (λ m. every 8 λ j. every 8 λ i.
      same (has_bit (bit_or m (2 ^ j) % 256) i) (i == j || has_bit m i)
      && same (has_bit (bit_and m (255 - 2 ^ j)) i) (not (i == j) && has_bit m i)
      && ltb (bit_and m (255 - 2 ^ j)) 256)
    ≡ true
unfolding every same
table = refl

at :
    (m j i : ℕ)
    → m < 256
    → j < 8
    → i < 8
    → (same (has_bit (bit_or m (2 ^ j) % 256) i) (i == j || has_bit m i)
        && same (has_bit (bit_and m (255 - 2 ^ j)) i) (not (i == j) && has_bit m i)
        && ltb (bit_and m (255 - 2 ^ j)) 256)
      ≡ true
at m j i hm hj hi = every_lem 8 _ i (every_lem 8 _ j (every_lem 256 _ m table hm) hj) hi

and_true : (a b : Bool) → (a && b) ≡ true → (a ≡ true) × (b ≡ true)
and_true a b h = ground (arith, h)

-- Setting bit `j` and clearing it, as tests of bit `i`.
pub has_bit-bit_or :
    (m j i : ℕ)
    → m < 256
    → j < 8
    → i < 8
    → has_bit (bit_or m (2 ^ j) % 256) i ≡ (i == j || has_bit m i)
has_bit-bit_or m j i hm hj hi = same_iff _ _ (and_true _ _ (and_true _ _ (at m j i hm hj hi)).0).0

pub has_bit-bit_and :
    (m j i : ℕ)
    → m < 256
    → j < 8
    → i < 8
    → has_bit (bit_and m (255 - 2 ^ j)) i ≡ (not (i == j) && has_bit m i)
has_bit-bit_and m j i hm hj hi = same_iff _ _ (and_true _ _ (and_true _ _ (at m j i hm hj hi)).0).1

pub bit_and-lt : (m j : ℕ) → m < 256 → j < 8 → bit_and m (255 - 2 ^ j) < 256
bit_and-lt m j hm hj = ltb→lt _ _ (and_true _ _ (at m j 0 hm hj (omega arith))).1
