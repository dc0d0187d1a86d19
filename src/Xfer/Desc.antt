-- ===== src/Xfer/Desc.antt =====
-- src/desc_xfer.c and src/desc_xfer.h: the descriptor blob in chunks, and its reassembly.
pub mod Chunk
pub mod Bounds
pub mod Order
pub mod Pass
mod Tests
use hurra_v.Base.{ℕ, ◌+◌, ◌-◌, ◌*◌, ◌/◌, ◌%◌, bit_and, bit_or, ◌||◌, Option, none, some}
use hurra_v.Base.{
  List, [], ◌∷◌, ◌++◌, ltb, leb, ◌==◌, if◌then◌else◌, not, get_or, slice, copy, length,
}
use hurra_v.Xfer.Outcome.{Outcome, in_progress, complete, restart}

abbrev pub hdr : ℕ
hdr = 4

abbrev pub data_per_chunk : ℕ
data_per_chunk = 22

-- `sizeof(captured_descriptors_t)`: 536 bytes before the interfaces, 8 interfaces of 528, and 2376
-- bytes after them, with two bytes of padding in all.
abbrev pub buf_max : ℕ
buf_max = 7136

pub record Ctx : Type 0 where
  pub buf : List ℕ
  pub total : ℕ
  pub next_idx : ℕ
  pub have : ℕ
  pub active : ℕ

pub chunk_count : ℕ → ℕ
chunk_count total =
    if total == 0 then 0 else (total + data_per_chunk - 1) / data_per_chunk % 0x10000

-- The payload that is written to `out`; its length is what the function returns, and `none` is the
-- return of 0, where nothing is written.
pub pack_chunk : List ℕ → ℕ → ℕ → Option (List ℕ)
pack_chunk blob total idx =
    if leb (chunk_count total) idx
    then none
    else let off = idx * data_per_chunk % 0x10000 in
      let rest = (total + 0x10000 - off) % 0x10000 in
      let n = if ltb data_per_chunk rest then data_per_chunk else rest in
      some (
        bit_and idx 0xff
        ∷ idx / 256 % 256
        ∷ bit_and total 0xff
        ∷ total / 256 % 256
        ∷ slice blob off n)

-- What the sender's loop hands to the frame codec for the chunk `idx`: nothing past the last one.
pub sent : List ℕ → ℕ → List ℕ
sent blob idx = elim (pack_chunk blob (length blob) idx) [ none ↦ [] | some p ↦ p ]

pub reset : Ctx → Ctx
reset ctx = record ctx { total = 0; next_idx = 0; have = 0; active = 0 }

-- A little-endian 16-bit field of a payload.
pub field16 : List ℕ → ℕ → ℕ
field16 payload i = bit_or (get_or payload i 0) (get_or payload (i + 1) 0 * 256) % 0x10000

-- The bounds check, the copy and the bookkeeping after the header has been taken.
pub store : Ctx → List ℕ → ℕ → ℕ → Ctx × Outcome
store ctx payload idx dlen =
    let off = idx * data_per_chunk % 0x10000 in
    if ltb ctx.total (off + dlen)
    then (reset ctx, restart)
    else let have = (off + dlen) % 0x10000 in
      let stored : Ctx = record ctx {
        buf = copy ctx.buf off (slice payload hdr dlen);
        have = have;
        next_idx = (idx + 1) % 0x10000;
      } in
      if leb ctx.total have then (record stored { active = 0 }, complete) else (stored, in_progress)

pub accept : Ctx → List ℕ → ℕ → Ctx × Outcome
accept ctx payload len =
    if ltb len hdr
    then (reset ctx, restart)
    else let idx = field16 payload 0 in
      let total = field16 payload 2 in
      let dlen = (len - hdr) % 256 in
      if idx == 0
      then if total == 0 || ltb buf_max total
        then (reset ctx, restart)
        else store (record ctx { total = total; next_idx = 0; have = 0; active = 1 }) payload idx
            dlen
      else if ctx.active == 0 || not (idx == ctx.next_idx) || not (total == ctx.total)
      then (reset ctx, restart)
      else store ctx payload idx dlen

-- The receiver's loop: each payload in turn, with what each call returns.
pub accept_all : Ctx → List (List ℕ) → Ctx × List Outcome
accept_all ctx [] = (ctx, [])
accept_all ctx (p ∷ ps) =
    let (ctx', r) = accept ctx p (length p) in let (end, rs) = accept_all ctx' ps in (end, r ∷ rs)
