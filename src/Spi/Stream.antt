-- ===== src/Spi/Stream.antt =====
-- src/spi_frame_stream.c: the streamer that finds slots in a stream of bytes with no boundaries.
-- `buf` is the whole 32-byte array; only its first `len` bytes are the window.
pub mod Spec
pub mod Refine
pub mod Delivery
pub mod InStep
mod Tests
use hurra_v.Base.{ℕ, zero, suc, ◌+◌, ◌-◌, ◌%◌, Bool, ◌&&◌, Option, none, some, List, [], ◌∷◌, ◌++◌}
use hurra_v.Base.{ltb, leb, ◌==◌, if◌then◌else◌, get_or, set, slice, copy, take}
use hurra_v.Spi.Frame.{sof, slot_size, FrameResult, ok, Frame, unpack}

pub record Stream : Type 0 where
  pub buf : List ℕ
  pub len : ℕ

pub init : Stream → Stream
init st = record st { len = 0 }

-- `for (i = 1; i < st->len; i++) if (st->buf[i] == SOF) break;` with `left` rounds to go; the
-- result is `i` after the loop.
pub scan : List ℕ → ℕ → ℕ → ℕ
scan buf i zero = i
scan buf i (suc left) = elim (get_or buf i 0 == sof) [
  | Bool.true ↦ i
  | Bool.false ↦ scan buf (i + 1) left
]

pub resync : Stream → Stream
resync st =
    let i = scan st.buf 1 (st.len - 1) in
    if leb st.len i
    then if ltb 0 st.len && get_or st.buf (st.len - 1) 0 == sof
      then record { buf = set st.buf 0 sof; len = 1 }
      else record st { len = 0 }
    else let n = (st.len - i) % 256 in record { buf = copy st.buf 0 (slice st.buf i n); len = n }

-- `spi_frame_unpack(…) == SPI_FRAME_OK`
pub is_ok : FrameResult Frame → Bool
is_ok (ok _) = Bool.true
is_ok _ = Bool.false

-- The option is what is copied to `out_slot`; it is there when the function returns true.
pub push : Stream → ℕ → Stream × Option (List ℕ)
push st byte =
    if st.len == 0
    then if byte == sof then (record { buf = set st.buf 0 byte; len = 1 }, none) else (st, none)
    else let grown : Stream = record { buf = set st.buf st.len byte; len = (st.len + 1) % 256 } in
      if ltb grown.len slot_size
      then (grown, none)
      else if is_ok (unpack grown.buf)
      then (record grown { len = 0 }, some (take slot_size grown.buf))
      else (resync grown, none)

-- A slot that came out goes before those that come out later.
pub collect : Option (List ℕ) → List (List ℕ) → List (List ℕ)
collect none slots = slots
collect (some slot) slots = slot ∷ slots

-- The receivers' loop: each byte in turn, collecting the slots that come out.
pub feed : Stream → List ℕ → Stream × List (List ℕ)
feed st [] = (st, [])
feed st (b ∷ bs) =
    let (st', out) = push st b in let (end, slots) = feed st' bs in (end, collect out slots)
