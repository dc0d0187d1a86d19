-- ===== src/Helpers/Rows.antt =====
-- Which row is picked.
use hurra_v.Base.{
  ℕ, zero, suc, ◌+◌, ◌%◌, ◌≤◌, ◌<◌, ◌≡◌, inl, inr, arith, true, false, Option, none, some,
  Bool-cases, ◌==◌,
}
use hurra_v.Helpers.{is_dirty, pick_from, display_pick_row}

-- The rounds from `i` up to `k` find no dirty row.
abbrev pub Clean : ℕ → ℕ → ℕ → ℕ → ℕ → Type 0
Clean dirty start nrows i k = (j : ℕ) → i ≤ j → j < k → is_dirty dirty ((start + j) % nrows) ≡ false

-- What the loop answers, from round `i` up to round `end`: the row of the first round that finds a dirty
-- one, or nothing where none does.
pub data Picked (dirty start nrows i end : ℕ) : Option ℕ → Type 0 where
  nothing_dirty : Clean dirty start nrows i end → Picked dirty start nrows i end none
  first_dirty :
      (k : ℕ)
      → i ≤ k
      → k < end
      → is_dirty dirty ((start + k) % nrows) ≡ true
      → Clean dirty start nrows i k
      → Picked dirty start nrows i end (some ((start + k) % nrows))

longer :
    (dirty start nrows i k : ℕ)
    → is_dirty dirty ((start + i) % nrows) ≡ false
    → Clean dirty start nrows (i + 1) k
    → Clean dirty start nrows i k
longer dirty start nrows i k h c j a b = elim (Bool-cases (j == i)) [
  | inl e ↦ let f : j ≡ i = ground (arith, e) in rw f h
  | inr e ↦ c j (ground (arith, e, a)) b
]

before :
    (dirty start nrows i end : ℕ) (r : Option ℕ)
    → is_dirty dirty ((start + i) % nrows) ≡ false
    → Picked dirty start nrows (i + 1) end r
    → Picked dirty start nrows i end r
before dirty start nrows i end none h (nothing_dirty c) =
    nothing_dirty (longer dirty start nrows i end h c)
before dirty start nrows i end _ h (first_dirty k a b d c) =
    first_dirty k (omega arith) b d (longer dirty start nrows i k h c)

loop_picks :
    (left i end dirty start nrows : ℕ)
    → i + left ≡ end
    → Picked dirty start nrows i end (pick_from left i dirty start nrows)
unfolding pick_from
loop_picks zero i end dirty start nrows e = nothing_dirty (λ j a b. absurd (omega arith))
loop_picks (suc left) i end dirty start nrows e =
    elim (Bool-cases (is_dirty dirty ((start + i) % nrows))) [
      | inl h ↦ rw h (first_dirty i (omega arith) (omega arith) h (λ j a b. absurd (omega arith)))
      | inr h ↦ rw h (
          before dirty start nrows i end (pick_from left (i + 1) dirty start nrows) h
            (loop_picks left (i + 1) end dirty start nrows (omega arith)))
    ]

-- From the start cursor on, each row once and round the end: the first dirty row is picked, and -1 is
-- returned only if no row is dirty.
pub pick_row_lem :
    (dirty start nrows : ℕ) → Picked dirty start nrows 0 nrows (display_pick_row dirty start nrows)
unfolding display_pick_row
pick_row_lem dirty start nrows = loop_picks nrows 0 nrows dirty start nrows (omega arith)
