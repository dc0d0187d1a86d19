-- ===== src/Base/Int.antt =====
-- Signed integers over the native numbers, and the casts of C between them and machine words.
use Prim.Native.Nat.{ℕ, ◌+◌, ◌-◌, ◌*◌, ◌/◌, ◌%◌, ◌^◌, min}
use mathlib.Core.Bool.{Bool}
use hurra_v.Base.Tests.{ltb, ◌==◌, if◌then◌else◌}

-- `negsuc n` is -(n + 1).
pub data ℤ : Type 0 where
  pos : ℕ → ℤ
  negsuc : ℕ → ℤ

-- An integer as a difference of two numbers.
abbrev pub plus : ℤ → ℕ
plus (pos n) = n
plus (negsuc n) = 0

abbrev pub minus : ℤ → ℕ
minus (pos n) = 0
minus (negsuc n) = n + 1

abbrev pub diff : ℕ → ℕ → ℤ
diff a b = if ltb a b then negsuc (b - a - 1) else pos (a - b)

infixl 65 ◌+ℤ◌ ◌-ℤ◌
abbrev pub ◌+ℤ◌ : ℤ → ℤ → ℤ
a +ℤ b = diff (plus a + plus b) (minus a + minus b)

abbrev pub ◌-ℤ◌ : ℤ → ℤ → ℤ
a -ℤ b = diff (plus a + minus b) (minus a + plus b)

-- A product by a number that is not negative.
abbrev pub scale : ℕ → ℤ → ℤ
scale k a = diff (k * plus a) (k * minus a)

-- `>>` rounds down.
abbrev pub shr : ℤ → ℕ → ℤ
shr (pos n) k = pos (n / 2 ^ k)
shr (negsuc n) k = negsuc (n / 2 ^ k)

abbrev pub is_zero : ℤ → Bool
is_zero a = plus a + minus a == 0

abbrev pub int_eq : ℤ → ℤ → Bool
int_eq a b = plus a + minus b == plus b + minus a

-- The two's complement word of `w` bits, and the integer that a word stands for.
abbrev pub to_word : ℕ → ℤ → ℕ
to_word w (pos n) = n % 2 ^ w
to_word w (negsuc n) = 2 ^ w - 1 - n % 2 ^ w

abbrev pub of_word : ℕ → ℕ → ℤ
of_word w x = if ltb (2 * x) (2 ^ w) then pos x else negsuc (2 ^ w - 1 - x)

-- A cast to a signed type of `w` bits.
abbrev pub wrap : ℕ → ℤ → ℤ
wrap w a = of_word w (to_word w a)

-- Clamped to the signed type of the given maximum.
abbrev pub clamp : ℕ → ℤ → ℤ
clamp max (pos n) = pos (min n max)
clamp max (negsuc n) = negsuc (min n max)

abbrev pub neg : ℤ → ℤ
neg a = diff (minus a) (plus a)

abbrev pub lt_int : ℤ → ℤ → Bool
lt_int a b = ltb (plus a + minus b) (plus b + minus a)

-- Cut to at most `max`, and then to at least its negation.
abbrev pub limit : ℤ → ℤ → ℤ
limit max v =
    let below = if lt_int max v then max else v in if lt_int below (neg max) then neg max else below
