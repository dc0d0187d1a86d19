-- ===== src/Ferrum/Decimal.antt =====
-- src/ferrum.c: the numbers and Booleans of a command, and the decimal numbers of a reply.
pub mod RoundTrip
use hurra_v.Base.{
  ℕ, zero, suc, ◌+◌, ◌-◌, ◌*◌, ◌/◌, ◌%◌, ◌^◌, Bool, true, false, ◌&&◌, ◌||◌, Option, none, some,
}
use hurra_v.Base.{List, [], ◌∷◌, ltb, leb, ◌==◌, if◌then◌else◌}
use hurra_v.Base.Int.{ℤ, pos, negsuc, plus, minus}

-- The loop over the digits: a number past 32 bits is refused before it is formed.
unfoldable pub digits : ℕ → List ℕ → Option ℕ
digits u [] = some u
digits u (c ∷ s) =
    let d = c - b'0' in
    let rest = digits (u * 10 + d) s in
    if ltb c b'0' || ltb b'9' c || ltb ((0xffffffff - d) / 10) u then none else rest

-- With or without a minus sign in front, once there is a digit.
unfoldable pub signed : Bool → List ℕ → Option ℤ
signed negative [] = none
signed negative (c ∷ s) = elim (digits 0 (c ∷ s)) [
  | none ↦ none
  | some u ↦
      if negative
      then (if ltb 0x80000000 u
          then none
          else if u == 0
          then some (pos 0)
          else some (negsuc (u - 1)))
      else if ltb 0x7fffffff u
      then none
      else some (pos u)
]

unfoldable pub parse_int : List ℕ → Option ℤ
parse_int [] = none
parse_int (c ∷ s) =
    if c == b'-' then signed true s else if c == b'+' then signed false s else signed false (c ∷ s)

unfoldable pub parse_bool : List ℕ → Option Bool
parse_bool (t ∷ r ∷ u ∷ e ∷ []) =
    if (t == b't') && (r == b'r') && (u == b'u') && (e == b'e') then some true else none
parse_bool (f ∷ a ∷ l ∷ s ∷ e ∷ []) =
    if (f == b'f') && (a == b'a') && (l == b'l') && (s == b's') && (e == b'e')
    then some false
    else none
parse_bool _ = none

-- The digits of a number in front of `s`; ten rounds are enough for 32 bits.
unfoldable pub digits_of : ℕ → ℕ → List ℕ → List ℕ
digits_of zero u s = s
digits_of (suc fuel) u s =
    let rest = digits_of fuel (u / 10) ((b'0' + u % 10) ∷ s) in if u == 0 then s else rest

unfoldable pub magnitude : ℕ → List ℕ
magnitude u = if u == 0 then b'0' ∷ [] else digits_of 10 u []

unfoldable pub format_int : ℤ → List ℕ
format_int (pos n) = magnitude n
format_int (negsuc n) = b'-' ∷ magnitude (n + 1)
