-- ===== src/Hid/Parse/Ends.antt =====
-- The loop over the items comes to its end.
use hurra_v.Base.{
  ℕ, zero, suc, ◌+◌, ◌≤◌, ◌<◌, ◌≡◌, inl, inr, refl, arith, true, Option, none, some, Bool-cases,
}
use hurra_v.Base.{List, get_or, ltb, leb, ◌==◌}
use hurra_v.Hid.Parse.{Parser, round, items, data_size}

-- Where the loop goes on, the next item is further on.
data Goes (rd : List ℕ) (rdlen i : ℕ) : Option (ℕ × Parser) → Type 0 where
  stops : Goes rd rdlen i none
  goes : (next : ℕ × Parser) → i < next.0 → i < rdlen → Goes rd rdlen i (some next)

round-Goes :
    (rd : List ℕ) (rdlen i : ℕ) (p : Parser)
    → ((k : ℕ) → get_or rd k 0 < 256)
    → rdlen ≤ 65277
    → Goes rd rdlen i (round rd rdlen i p)
unfolding round
round-Goes rd rdlen i p bytes h =
    let b = get_or rd i 0 in
    let sz = data_size b in
    let small : sz ≤ 4 = ground arith in
    let long = bytes (i + 1) in
    elim (Bool-cases (leb rdlen i)) [
      | inl e ↦ rw e stops
      | inr e ↦ elim (Bool-cases (b == 0xfe)) [
        | inl f ↦ elim (Bool-cases (ltb (i + 2) rdlen)) [
          | inl g ↦ rw (e, f, g) (goes _ (ground (arith, e, g, h, long)) (ground (arith, e)))
          | inr g ↦ rw (e, f, g) stops
        ]
        | inr f ↦ elim (Bool-cases (ltb rdlen (i + 1 + sz))) [
          | inl g ↦ rw (e, f, g) stops
          | inr g ↦ rw (e, f, g) (goes _ (ground (arith, e, g, h, small)) (ground (arith, e)))
        ]
      ]
    ]

after : (rd : List ℕ) (rdlen i : ℕ) (p : Parser) → rdlen ≤ i → round rd rdlen i p ≡ none
unfolding round
after rd rdlen i p h = let e : leb rdlen i ≡ true = ground (arith, h) in rw e refl

-- The two cases, with the equation that a proof rewrites by.
data Cases (rd : List ℕ) (rdlen i : ℕ) (o : Option (ℕ × Parser)) : Type 0 where
  stopped : o ≡ none → Cases rd rdlen i o
  went : (next : ℕ × Parser) → o ≡ some next → i < next.0 → i < rdlen → Cases rd rdlen i o

cases :
    (rd : List ℕ) (rdlen i : ℕ) (o : Option (ℕ × Parser)) → Goes rd rdlen i o → Cases rd rdlen i o
cases rd rdlen i o stops = stopped refl
cases rd rdlen i o (goes next far near) = went next refl far near

-- From byte `i` with `p`, the rounds of the loop lead to byte `j` with `q`.
pub data Rounds (rd : List ℕ) (rdlen : ℕ) : ℕ → Parser → ℕ → Parser → Type 0 where
  here : (i : ℕ) (p : Parser) → Rounds rd rdlen i p i p
  on :
      (i : ℕ) (p : Parser) (next : ℕ × Parser) (j : ℕ) (q : Parser)
      → round rd rdlen i p ≡ some next
      → Rounds rd rdlen next.0 next.1 j q
      → Rounds rd rdlen i p j q

-- The rounds of the loop lead to a place where a round ends it, and on either fuel this is the result.
abbrev pub Ends : ℕ → ℕ → List ℕ → ℕ → ℕ → Parser → Type 0
Ends f g rd rdlen i p =
    (at : ℕ × Parser) × Rounds rd rdlen i p at.0 at.1
    × (round rd rdlen at.0 at.1 ≡ none)
    × (items f rd rdlen i p ≡ some at.1)
    × (items g rd rdlen i p ≡ some at.1)

-- A descriptor of at most 65277 bytes, given as a list of bytes: from byte `i` on, the loop ends. Its rounds
-- lead to a place where a round says that the loop is over, and on any two amounts of fuel that are more
-- than the bytes left, the result is what the parser has found there.
pub items_end :
    (f g : ℕ) (rd : List ℕ) (rdlen i : ℕ) (p : Parser)
    → ((k : ℕ) → get_or rd k 0 < 256)
    → rdlen ≤ 65277
    → rdlen ≤ i + f
    → rdlen ≤ i + g
    → Ends (suc f) (suc g) rd rdlen i p
unfolding items
items_end zero g rd rdlen i p bytes h k l =
    let e = after rd rdlen i p (omega (arith, k)) in
    ((i, p), here i p, e, rw (e, items) refl, rw (e, items) refl)
items_end (suc f) zero rd rdlen i p bytes h k l =
    let e = after rd rdlen i p (omega (arith, l)) in
    ((i, p), here i p, e, rw (e, items) refl, rw (e, items) refl)
items_end (suc f) (suc g) rd rdlen i p bytes h k l =
    elim (cases rd rdlen i (round rd rdlen i p) (round-Goes rd rdlen i p bytes h)) [
      | stopped e ↦ ((i, p), here i p, e, rw (e, items) refl, rw (e, items) refl)
      | went next e far near ↦
          let rest =
            items_end f g rd rdlen next.0 next.1 bytes h (omega (arith, far, k))
              (omega (arith, far, l)) in
          (
            rest.0,
            on i p next rest.0.0 rest.0.1 e rest.1,
            rest.2,
            rw (e, items) rest.3,
            rw (e, items) rest.4,
          )
    ]
