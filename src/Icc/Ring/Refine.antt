-- ===== src/Icc/Ring/Refine.antt =====
-- The ring is a queue of at most 255 records.
use hurra_v.Base.{ℕ, zero, suc, ◌+◌, ◌-◌, ◌%◌, ◌<◌, ◌≡◌, refl, ap, ap₂, arith}
use hurra_v.Base.{bit_and_mask, true, false, Option, none, some, List, [], ◌∷◌, ◌++◌}
use hurra_v.Base.{
  length, get_or, set, length-set, get_or-set_self, get_or-set_ne, if◌then◌else◌, ◌==◌, drop,
  dec_lt,
}
use hurra_v.Icc.Ring.{Rec, Ring, blank, slots, mask, push, pop}

pub record IsValid (r : Ring) : Type 0 where
  pub whole : length r.slot ≡ slots
  pub head_in : r.head < slots
  pub tail_in : r.tail < slots

-- How many records are queued.
abbrev pub size : Ring → ℕ
size r = (r.head + slots - r.tail) % slots

-- `n` records from index `i` on, going round at the end.
abbrev pub window : List Rec → ℕ → ℕ → List Rec
window xs i zero = []
window xs i (suc n) = get_or xs i blank ∷ window xs ((i + 1) % slots) n

-- Oldest first.
abbrev pub contents : Ring → List Rec
contents r = window r.slot r.tail (size r)

length-window : (xs : List Rec) (i n : ℕ) → length (window xs i n) ≡ n
length-window xs i zero = refl
length-window xs i (suc n) = ap suc (length-window xs ((i + 1) % slots) n)

-- A write just past the window extends it; the distance is below the ring's size, so the write is
-- outside.
window-set :
    (xs : List Rec) (rec : Rec) (n i j : ℕ)
    → length xs ≡ slots
    → i < slots
    → n < mask + 1
    → j ≡ (i + n) % slots
    → window (set xs j rec) i (suc n) ≡ window xs i n ++ (rec ∷ [])
window-set xs rec zero i j w h hn e =
    let same : j ≡ i = omega arith in
    rw same (ap (λ r. r ∷ []) (get_or-set_self xs i rec blank (omega arith)))
window-set xs rec (suc n) i j w h hn e =
    ap₂ ◌∷◌ (get_or-set_ne xs j i rec blank (omega arith))
      (window-set xs rec n ((i + 1) % slots) j w (omega arith) (omega arith) (omega arith))

window-suc :
    (xs : List Rec) (i n k : ℕ)
    → k + 1 ≡ n
    → window xs i n ≡ get_or xs i blank ∷ window xs ((i + 1) % slots) k
window-suc xs i zero k e = absurd (omega arith)
window-suc xs i (suc n) k e =
    ap (λ m. get_or xs i blank ∷ window xs ((i + 1) % slots) m) (omega arith)

-- `ring_push` refuses exactly when 255 records are queued, and then changes nothing; else the record
-- goes to the end.
pub push-contents :
    (r : Ring) (rec : Rec)
    → IsValid r
    → IsValid (push r rec).0
      × ((push r rec).1 ≡ (if length (contents r) == mask then false else true))
      × (contents (push r rec).0
          ≡ (if length (contents r) == mask then contents r else contents r ++ (rec ∷ [])))
unfolding push
push-contents r rec v =
    let h1 = bit_and_mask 8 (r.head + 1) in
    let h0 = bit_and_mask 8 r.head in
    let t0 = bit_and_mask 8 r.tail in
    let len = length-window r.slot r.tail (size r) in
    let grown = window-set r.slot rec (size r) r.tail r.head v.whole v.tail_in in
    rw (h1, h0, t0) (ground (arith, len, grown, length-set r.slot (r.head % 256) rec))

abbrev pub first : List Rec → Option Rec
first [] = none
first (x ∷ xs) = some x

window-zero : (xs : List Rec) (i n : ℕ) → n ≡ 0 → window xs i n ≡ []
window-zero xs i zero e = refl
window-zero xs i (suc n) e = absurd (omega arith)

pop_empty : (r : Ring) → IsValid r → size r ≡ 0 → (pop r ≡ (r, none)) × (contents r ≡ [])
unfolding pop
pop_empty r v e =
    let h0 = bit_and_mask 8 r.head in
    let t0 = bit_and_mask 8 r.tail in
    (rw (h0, t0) (ground arith), window-zero r.slot r.tail (size r) e)

pop_some :
    (r : Ring)
    → IsValid r
    → 0 < size r
    → ((pop r).1 ≡ first (contents r))
      × (contents (pop r).0 ≡ drop 1 (contents r))
      × IsValid (pop r).0
unfolding pop
pop_some r v h =
    let h0 = bit_and_mask 8 r.head in
    let t0 = bit_and_mask 8 r.tail in
    let t1 = bit_and_mask 8 (r.tail + 1) in
    let one = window-suc r.slot r.tail (size r) (size r - 1) (omega arith) in
    let small : r.tail % 256 ≡ r.tail = omega arith in
    let rest : (r.head + slots - (r.tail + 1) % 256) % slots ≡ size r - 1 = omega arith in
    rw (h0, t0, t1, one, small) (ground (arith, rest))

-- `ring_pop` takes the oldest record off and gives it out; it leaves an empty ring as it is.
pub pop-contents :
    (r : Ring)
    → IsValid r
    → ((pop r).1 ≡ first (contents r))
      × (contents (pop r).0 ≡ drop 1 (contents r))
      × IsValid (pop r).0
pop-contents r v = elim (dec_lt 0 (size r)) [
  | yes h ↦ pop_some r v h
  | no h ↦ let e = pop_empty r v (omega arith) in rw (e.0, e.1) (refl, refl, v)
]
