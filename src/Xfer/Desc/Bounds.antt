-- ===== src/Xfer/Desc/Bounds.antt =====
-- No payload makes the reassembler write outside its buffer.
use hurra_v.Base.{ℕ, ◌+◌, ◌-◌, ◌*◌, ◌%◌, ◌≤◌, ◌≡◌, ◌∙◌, arith}
use hurra_v.Base.{List, length, slice, copy, length-copy, length-take, drop}
use hurra_v.Xfer.Desc.{Ctx, buf_max, hdr, accept, store, reset, data_per_chunk, field16}

-- The representation invariant of `desc_xfer_ctx_t`.
pub record IsValid (ctx : Ctx) : Type 0 where
  pub whole : length ctx.buf ≡ buf_max
  pub total_fits : ctx.total ≤ buf_max
  pub have_fits : ctx.have ≤ ctx.total
  pub flag : ctx.active ≤ 1

pub reset-IsValid : (ctx : Ctx) → length ctx.buf ≡ buf_max → IsValid (reset ctx)
unfolding reset
reset-IsValid ctx h = omega (arith, h)

-- The copy of `dlen` payload bytes, or fewer where the payload has fewer, stays inside the buffer.
length-stored :
    (buf payload : List ℕ) (off dlen total : ℕ)
    → length buf ≡ buf_max
    → total ≤ buf_max
    → off + dlen ≤ total
    → length (copy buf off (slice payload hdr dlen)) ≡ buf_max
length-stored buf payload off dlen total w t h =
    length-copy buf off (slice payload hdr dlen)
      (omega (arith, length-take dlen (drop hdr payload), w, t, h))
    ∙ w

store-IsValid :
    (ctx : Ctx) (payload : List ℕ) (idx dlen : ℕ)
    → length ctx.buf ≡ buf_max
    → ctx.total ≤ buf_max
    → ctx.active ≤ 1
    → IsValid (store ctx payload idx dlen).0
unfolding store reset
store-IsValid ctx payload idx dlen w t a =
    ground
      (arith, length-stored ctx.buf payload (idx * data_per_chunk % 0x10000) dlen ctx.total w t)

-- Whatever the payload and its length are, `desc_xfer_accept` keeps the invariant: the buffer has
-- its size, the length taken over fits it, and no more bytes are counted than that.
pub accept-IsValid :
    (ctx : Ctx) (payload : List ℕ) (len : ℕ) → IsValid ctx → IsValid (accept ctx payload len).0
unfolding accept reset
accept-IsValid ctx payload len v =
    let total = field16 payload 2 in
    ground (
      arith,
      store-IsValid ctx payload (field16 payload 0) ((len - hdr) % 256),
      store-IsValid (record ctx { total = total; next_idx = 0; have = 0; active = 1 }) payload
          (field16 payload 0) ((len - hdr) % 256),
    )
