-- ===== src/Icc/Ring.antt =====
-- src/icc.c, `ring_push` and `ring_pop`: the queue of records in the command core's own memory.
pub mod Refine
use hurra_v.Base.{ℕ, ◌+◌, ◌%◌, bit_and, Bool, true, false, Option, none, some, List, [], ◌∷◌}
use hurra_v.Base.{◌==◌, if◌then◌else◌, get_or, set, replicate}

abbrev pub slots : ℕ
slots = 256

abbrev pub mask : ℕ
mask = 255

-- `icc_record_t`: a tag and 15 payload bytes.
pub record Rec : Type 0 where
  pub tag : ℕ
  pub b : List ℕ

abbrev pub blank : Rec
blank = record { tag = 0; b = replicate 15 0 }

pub record Ring : Type 0 where
  pub head : ℕ
  pub tail : ℕ
  pub slot : List Rec

-- The new ring, and false where it was full.
unfoldable pub push : Ring → Rec → Ring × Bool
push r rec =
    let next = bit_and (r.head + 1) mask in
    if next == bit_and r.tail mask
    then (r, false)
    else (record r { slot = set r.slot (bit_and r.head mask) rec; head = next }, true)

-- The new ring, and the oldest record, `none` where it was empty.
unfoldable pub pop : Ring → Ring × Option Rec
pop r = if bit_and r.tail mask == bit_and r.head mask then (r, none) else (
  record r { tail = bit_and (r.tail + 1) mask },
  some (get_or r.slot (bit_and r.tail mask) blank),
)
