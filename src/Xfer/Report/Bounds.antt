-- ===== src/Xfer/Report/Bounds.antt =====
-- No payload makes the reassembler write outside its 64-byte buffer.
use hurra_v.Base.{
  if◌then◌else◌, ◌==◌, min, max, inl, inr, refl, ◌≢◌, ◌⊎◌, ℕ, ◌+◌, ◌-◌, ◌*◌, ◌%◌, ◌≤◌, ◌<◌, ◌≡◌,
  ◌∙◌, arith,
}
use hurra_v.Base.{List, length, slice, copy, length-copy, length-take, drop, get_or}
use hurra_v.Xfer.Report.{
  Ctx, max_report, header_size, data_per_fragment, accept, store, reset, reject, begin,
}

-- The representation invariant of `report_xfer_ctx_t`: while a report is in progress, the next
-- fragment starts where the received bytes end.
pub record IsValid (ctx : Ctx) : Type 0 where
  pub whole : length ctx.report ≡ max_report
  pub total_fits : ctx.total_len ≤ max_report
  pub received_fits : ctx.bytes_received ≤ ctx.total_len
  pub in_step :
      ctx.active ≡ 1
      → (ctx.bytes_received < ctx.total_len)
        × (ctx.bytes_received ≡ ctx.expected_index * data_per_fragment)
  pub flag : ctx.active ≤ 1
  pub endpoint : ctx.dev_ep ≤ 15

length-stored :
    (buf payload : List ℕ) (off n total : ℕ)
    → length buf ≡ max_report
    → total ≤ max_report
    → off + n ≤ total
    → length (copy buf off (slice payload header_size n)) ≡ max_report
length-stored buf payload off n total w t h =
    length-copy buf off (slice payload header_size n)
      (omega (arith, length-take n (drop header_size payload), w, t, h))
    ∙ w

store-IsValid :
    (ctx : Ctx) (payload : List ℕ) (index offset n : ℕ)
    → length ctx.report ≡ max_report
    → ctx.total_len ≤ max_report
    → ctx.dev_ep ≤ 15
    → ctx.active ≤ 1
    → offset ≡ index * data_per_fragment
    → offset + n ≤ ctx.total_len
    → (offset + n < ctx.total_len → n ≡ data_per_fragment)
    → IsValid (store ctx payload index offset n).0
unfolding store
store-IsValid ctx payload index offset n w t d a o h full =
    ground (arith, length-stored ctx.report payload offset n ctx.total_len w t h)

reject-IsValid : (ctx : Ctx) → length ctx.report ≡ max_report → IsValid (reject ctx).0
unfolding reject reset
reject-IsValid ctx h = ground (arith, h)

-- The header and the length of a payload that is not refused outright.
pub record Fitting (payload : List ℕ) (payload_len : ℕ) : Type 0 where
  pub total_pos : 0 < get_or payload 1 0
  pub total_max : get_or payload 1 0 ≤ max_report
  pub ep_pos : 0 < get_or payload 2 0
  pub ep_max : get_or payload 2 0 ≤ 15
  pub inside : get_or payload 0 0 * data_per_fragment < get_or payload 1 0
  pub exact :
      (payload_len - header_size) % 256
      ≡ min data_per_fragment (get_or payload 1 0 - get_or payload 0 0 * data_per_fragment)

-- The fragment continues the report in progress.
pub record Continues (ctx : Ctx) (payload : List ℕ) : Type 0 where
  pub is_active : ctx.active ≢ 0
  pub index : get_or payload 0 0 ≡ ctx.expected_index
  pub total : get_or payload 1 0 ≡ ctx.total_len
  pub ep : get_or payload 2 0 ≡ ctx.dev_ep
  pub protocol : get_or payload 3 0 ≡ ctx.iface_protocol

-- The context in which a fragment is stored.
abbrev pub entered : Ctx → List ℕ → Ctx
entered ctx payload =
    if get_or payload 0 0 == 0
    then begin ctx (get_or payload 1 0) (get_or payload 2 0) (get_or payload 3 0)
    else ctx

-- The three ways of a call: refused, a new report begun, the report in progress continued.
pub accept-cases :
    (ctx : Ctx) (payload : List ℕ) (payload_len : ℕ)
    → get_or payload 0 0 < 256
    → (accept ctx payload payload_len ≡ reject ctx)
      ⊎ (Fitting payload payload_len
          × (accept ctx payload payload_len
              ≡ store
                  (entered ctx payload)
                  payload
                  (get_or payload 0 0)
                  (get_or payload 0 0 * data_per_fragment)
                  (min data_per_fragment
                    (get_or payload 1 0 - get_or payload 0 0 * data_per_fragment)))
          × ((get_or payload 0 0 ≡ 0) ⊎ Continues ctx payload))
unfolding accept
accept-cases ctx payload payload_len b = ground arith

entered_fits :
    (ctx : Ctx) (payload : List ℕ)
    → (get_or payload 0 0 ≡ 0) ⊎ Continues ctx payload
    → (length (entered ctx payload).report ≡ length ctx.report)
      × ((entered ctx payload).total_len ≡ get_or payload 1 0)
      × ((entered ctx payload).dev_ep ≡ get_or payload 2 0)
      × ((entered ctx payload).active ≤ max 1 ctx.active)
unfolding begin
entered_fits ctx payload c = ground arith

-- Whatever the bytes of the payload and its length are, `report_xfer_accept` keeps the invariant:
-- the buffer has its size, the length taken over fits it, no more bytes are counted than that, and
-- while a report is in progress the next fragment starts where the received bytes end.
pub accept_keeps_IsValid :
    (ctx : Ctx) (payload : List ℕ) (payload_len : ℕ)
    → get_or payload 0 0 < 256
    → IsValid ctx
    → IsValid (accept ctx payload payload_len).0
accept_keeps_IsValid ctx payload payload_len b v = elim (accept-cases ctx payload payload_len b) [
  | inl e ↦ rw e (reject-IsValid ctx v.whole)
  | inr c ↦
      let index = get_or payload 0 0 in
      let n = min data_per_fragment (get_or payload 1 0 - index * data_per_fragment) in
      let fits = entered_fits ctx payload c.2 in
      rw (c.1) (
        store-IsValid (entered ctx payload) payload index (index * data_per_fragment) n
          (fits.0 ∙ v.whole) (omega (arith, fits.1, c.0.total_max))
          (omega (arith, fits.2, c.0.ep_max)) (omega (arith, fits.3, v.flag)) refl
          (omega (arith, fits.1, c.0.inside)) (λ h. omega (arith, fits.1, c.0.inside, h)))
]
