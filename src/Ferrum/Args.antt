-- ===== src/Ferrum/Args.antt =====
-- src/ferrum.c: a line is split into the name of the command and its arguments.
pub mod Prints
use hurra_v.Base.{ℕ, zero, suc, ◌+◌, Bool, true, false, ◌&&◌, ◌||◌, not, Option, none, some}
use hurra_v.Base.{List, [], ◌∷◌, map, take, length, ltb, leb, ◌==◌, if◌then◌else◌}

abbrev pub is_blank : ℕ → Bool
is_blank c = c == b' ' || c == b'\t'

unfoldable pub trim_start : List ℕ → List ℕ
trim_start [] = []
trim_start (c ∷ s) = let rest = trim_start s in if is_blank c then rest else c ∷ s

unfoldable pub trim_end : List ℕ → List ℕ
trim_end [] = []
trim_end (c ∷ s) = elim (trim_end s) [
  | [] ↦ if is_blank c then [] else c ∷ []
  | d ∷ rest ↦ c ∷ d ∷ rest
]

unfoldable pub trim : List ℕ → List ℕ
trim s = trim_end (trim_start s)

-- The parts between the commas; there is always one.
unfoldable pub parts : List ℕ → List ℕ × List (List ℕ)
parts [] = ([], [])
parts (c ∷ s) =
    let (first, others) = parts s in if c == b',' then ([], first ∷ others) else (c ∷ first, others)

-- `FERRUM_MAX_ARGS`
abbrev pub max_args : ℕ
max_args = 8

-- A single empty part is no argument.
unfoldable pub drop_empty : List (List ℕ) → List (List ℕ)
drop_empty [] = []
drop_empty ([] ∷ []) = []
drop_empty ([] ∷ b ∷ args) = [] ∷ b ∷ args
drop_empty ((c ∷ a) ∷ args) = (c ∷ a) ∷ args

unfoldable pub split_args : List ℕ → List (List ℕ)
split_args s = drop_empty (map trim (take max_args ((parts s).0 ∷ (parts s).1)))

-- What stands before the first `(`, and what stands behind it.
unfoldable pub split_open : List ℕ → Option (List ℕ × List ℕ)
split_open [] = none
split_open (c ∷ s) =
    let rest = split_open s in
    if c == b'('
    then some ([], s)
    else elim rest [ none ↦ none | some (name, body) ↦ some (c ∷ name, body) ]

-- What stands before the last `)`.
unfoldable pub before_close : List ℕ → Option (List ℕ)
before_close [] = none
before_close (c ∷ s) = elim (before_close s) [
  | none ↦ if c == b')' then some [] else none
  | some body ↦ some (c ∷ body)
]

-- The name, and the body with what follows it.
unfoldable pub command_of : List ℕ → Option (List ℕ × List ℕ)
command_of (c ∷ d ∷ e ∷ s) =
    if (c == b'm') && (d == b'(')
    then some (b'm' ∷ b'o' ∷ b'v' ∷ b'e' ∷ [], e ∷ s)
    else if (c == b'k') && (d == b'm') && (e == b'.')
    then split_open s
    else none
command_of (c ∷ d ∷ []) =
    if (c == b'm') && (d == b'(') then some (b'm' ∷ b'o' ∷ b'v' ∷ b'e' ∷ [], []) else none
command_of _ = none

-- The name with the arguments, which end at the last `)`.
unfoldable pub named : List ℕ → Option (List ℕ) → Option (List ℕ × List (List ℕ))
named name none = none
named name (some body) = if length name == 0 then none else some (name, split_args body)

unfoldable pub bracketed : Option (List ℕ × List ℕ) → Option (List ℕ × List (List ℕ))
bracketed none = none
bracketed (some (name, rest)) = named name (before_close rest)

-- The name and the arguments of a line, `none` where it is dropped.
unfoldable pub parse_line : List ℕ → Option (List ℕ × List (List ℕ))
parse_line line = bracketed (command_of (trim_start line))
