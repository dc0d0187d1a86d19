-- ===== src/Xfer/Desc/Order.antt =====
-- Chunks in any order, with losses and repeats, and a whole pass in order.
use hurra_v.Base.{ℕ, ◌+◌, ◌-◌, ◌%◌, ◌≤◌, ◌<◌}
use hurra_v.Base.{◌≡◌, refl, sym, ap, ap₂, ◌∙◌, ◌≢◌, ◌⊎◌, inl, inr, arith}
use hurra_v.Base.{List, [], ◌∷◌, ◌++◌, map, length, slice, copy, take, ◌==◌}
use hurra_v.Base.{
  if◌then◌else◌, length-slice, take_all, take-copy, take-add, length-copy, take_zero,
}
use hurra_v.Xfer.Outcome.{Outcome, complete, restart}
use hurra_v.Xfer.Desc.{Ctx, buf_max, hdr, chunk_count, accept, accept_all, reset, sent}
use hurra_v.Xfer.Desc.Chunk.{
  start, bytes_in, chunk, after, outcome, store-chunk, start-lt, length-chunk,
}
use hurra_v.Xfer.Desc.Chunk.{index_field, total_field, sent-eq-chunk}

module _ (blob : List ℕ) (small : length blob ≤ buf_max) where
  abbrev pub count : ℕ
  count = chunk_count (length blob)

  -- A call that starts a transfer, or continues the one in progress.
  abbrev pub Fits : Ctx → ℕ → Type 0
  Fits ctx k = (k ≡ 0) ⊎ ((ctx.active ≢ 0) × (ctx.next_idx ≡ k) × (ctx.total ≡ length blob))

  -- The context in which the chunk is stored.
  abbrev pub entered : Ctx → ℕ → Ctx
  entered ctx k =
      if k == 0 then record ctx { total = length blob; next_idx = 0; have = 0; active = 1 } else ctx

  -- A chunk that fits is stored, one that does not puts the context back to idle.
  pub accept-Fits :
      (ctx : Ctx) (k : ℕ) (inside : k < count)
      → Fits ctx k
      → accept ctx (chunk blob small k) (length (chunk blob small k))
        ≡ (after blob small k inside (entered ctx k), outcome blob small k inside)
  unfolding accept
  accept-Fits ctx k inside fits =
      let s = start-lt blob small k inside in
      let len = length-chunk blob small k inside in
      let dlen : (hdr + bytes_in blob small k - hdr) % 256 ≡ bytes_in blob small k = omega arith in
      rw (len, index_field blob small k inside, total_field blob small k inside, dlen)
        (ground (arith, s, store-chunk blob small k inside (entered ctx k)))

  accept_unfit :
      (ctx : Ctx) (k : ℕ)
      → k < count
      → k ≢ 0
      → (ctx.active ≡ 0) ⊎ ((ctx.next_idx ≢ k) ⊎ (ctx.total ≢ length blob))
      → accept ctx (chunk blob small k) (length (chunk blob small k)) ≡ (reset ctx, restart)
  unfolding accept
  accept_unfit ctx k inside ne un =
      let len = length-chunk blob small k inside in
      rw (len, index_field blob small k inside, total_field blob small k inside) (ground arith)

  -- While a transfer of the blob is in progress, the chunks before `next_idx` are in the buffer.
  pub record Holds (ctx : Ctx) : Type 0 where
    pub whole : length ctx.buf ≡ buf_max
    pub same_blob : ctx.active ≢ 0 → ctx.total ≡ length blob
    pub held :
        ctx.active ≢ 0
        → take (start blob small ctx.next_idx) ctx.buf ≡ take (start blob small ctx.next_idx) blob

  stored_prefix :
      (buf : List ℕ) (k end : ℕ)
      → k < count
      → length buf ≡ buf_max
      → end ≡ start blob small k + bytes_in blob small k
      → take (start blob small k) buf ≡ take (start blob small k) blob
      → take end
          (copy buf (start blob small k) (slice blob (start blob small k) (bytes_in blob small k)))
        ≡ take end blob
  stored_prefix buf k end inside w e h =
      let s = start-lt blob small k inside in
      let n = length-slice blob (start blob small k) (bytes_in blob small k) (omega (arith, s)) in
      take-copy buf (start blob small k) end
        (slice blob (start blob small k) (bytes_in blob small k)) (omega (arith, n, e))
        (omega (arith, e, s, w, small))
      ∙ (ap (λ (l : List ℕ). l ++ slice blob (start blob small k) (bytes_in blob small k)) h
          ∙ sym (take-add (start blob small k) (bytes_in blob small k) end blob (sym e)))

  length-stored :
      (buf : List ℕ) (k : ℕ)
      → k < count
      → length buf ≡ buf_max
      → length
          (copy buf (start blob small k) (slice blob (start blob small k) (bytes_in blob small k)))
        ≡ buf_max
  length-stored buf k inside w =
      let s = start-lt blob small k inside in
      let n = length-slice blob (start blob small k) (bytes_in blob small k) (omega (arith, s)) in
      length-copy buf (start blob small k) (slice blob (start blob small k) (bytes_in blob small k))
        (omega (arith, n, s, w, small))
      ∙ w

  -- The result of one call on a chunk of the blob.
  pub record Good (r : Ctx × Outcome) : Type 0 where
    pub holds : Holds r.0
    pub finished : r.1 ≡ complete → (take (length blob) r.0.buf ≡ blob) × (r.0.total ≡ length blob)

  after-Good :
      (ctx : Ctx) (k : ℕ) (inside : k < count)
      → length ctx.buf ≡ buf_max
      → take (start blob small k) ctx.buf ≡ take (start blob small k) blob
      → Good (after blob small k inside ctx, outcome blob small k inside)
  after-Good ctx k inside w h =
      let s = start-lt blob small k inside in
      let end = start blob small k + bytes_in blob small k in
      record {
        holds = record {
          whole = length-stored ctx.buf k inside w;
          same_blob = λ ne. refl;
          held =
              λ ne. stored_prefix ctx.buf k (start blob small (k + 1)) inside w (unfinished ne) h;
        };
        finished = λ e. (
          stored_prefix ctx.buf k (length blob) inside w (ended e) h
              ∙ take_all (length blob) blob (omega arith),
          refl,
        );
      }
    where
      unfinished :
          (after blob small k inside ctx).active ≢ 0
          → start blob small (k + 1) ≡ start blob small k + bytes_in blob small k
      unfinished ne = ground (arith, start-lt blob small k inside)

      ended :
          outcome blob small k inside ≡ complete
          → length blob ≡ start blob small k + bytes_in blob small k
      ended e = ground (arith, start-lt blob small k inside)

  pub reset-Holds : (ctx : Ctx) → length ctx.buf ≡ buf_max → Holds (reset ctx)
  unfolding reset
  reset-Holds ctx w = record {
    whole = w;
    same_blob = λ ne. absurd (ne refl);
    held = λ ne. absurd (ne refl);
  }

  Fits-or_unfit :
      (ctx : Ctx) (k : ℕ)
      → Fits ctx k
        ⊎ ((k ≢ 0) × ((ctx.active ≡ 0) ⊎ ((ctx.next_idx ≢ k) ⊎ (ctx.total ≢ length blob))))
  Fits-or_unfit ctx k = ground arith

  entered_whole : (ctx : Ctx) (k : ℕ) → Holds ctx → length (entered ctx k).buf ≡ buf_max
  entered_whole ctx k h = ground (arith, h.whole)

  entered_held :
      (ctx : Ctx) (k : ℕ)
      → Holds ctx
      → Fits ctx k
      → take (start blob small k) (entered ctx k).buf ≡ take (start blob small k) blob
  entered_held ctx k h (inl e) =
      take_zero (entered ctx k).buf (start blob small k) (omega arith)
      ∙ sym (take_zero blob (start blob small k) (omega arith))
  entered_held ctx k h (inr f) = ground (arith, h.held f.0, f.1)

  -- One chunk of the blob, whichever it is.
  pub accept-Good :
      (ctx : Ctx) (k : ℕ)
      → k < count
      → Holds ctx
      → Good (accept ctx (chunk blob small k) (length (chunk blob small k)))
  accept-Good ctx k inside h = elim (Fits-or_unfit ctx k) [
    | inl fits ↦
        rw (accept-Fits ctx k inside fits)
          (after-Good (entered ctx k) k inside (entered_whole ctx k h) (entered_held ctx k h fits))
    | inr un ↦
        rw (accept_unfit ctx k inside un.0 un.1)
          (record { holds = reset-Holds ctx h.whole; finished = λ e. absurd (cc) })
  ]

  abbrev pub InRange : List ℕ → Type 0
  InRange [] = Unit
  InRange (k ∷ ks) = (k < count) × InRange ks

  accept_all-Holds :
      (ks : List ℕ) (ctx : Ctx)
      → InRange ks
      → Holds ctx
      → Holds (accept_all ctx (map (chunk blob small) ks)).0
  unfolding accept_all
  accept_all-Holds [] ctx r h = h
  accept_all-Holds (k ∷ ks) ctx r h =
      accept_all-Holds ks (accept ctx (chunk blob small k) (length (chunk blob small k))).0 r.1
        (accept-Good ctx k r.0 h).holds

  map-sent : (ks : List ℕ) → InRange ks → map (sent blob) ks ≡ map (chunk blob small) ks
  map-sent [] r = refl
  map-sent (k ∷ ks) r = ap₂ ◌∷◌ (sent-eq-chunk blob small k r.0) (map-sent ks r.1)

  -- Chunks of one blob that arrive in any order, lost or repeated at will, after a reset: where the
  -- reassembler reports completion, its buffer holds the whole blob and its length is the blob's.
  pub complete_whole :
      (ks : List ℕ) (k : ℕ) (idle : Ctx)
      → InRange (k ∷ ks)
      → length idle.buf ≡ buf_max
      → (accept
          (accept_all (reset idle) (map (sent blob) ks)).0
          (sent blob k)
          (length (sent blob k))).1
        ≡ complete
      → let r =
          accept
            (accept_all (reset idle) (map (sent blob) ks)).0
            (sent blob k)
            (length (sent blob k)) in
        (take (length blob) r.0.buf ≡ blob) × (r.0.total ≡ length blob)
  complete_whole ks k idle r w =
      rw (map-sent ks r.1, sent-eq-chunk blob small k r.0)
        (accept-Good (accept_all (reset idle) (map (chunk blob small) ks)).0 k r.0
          (accept_all-Holds ks (reset idle) r.1 (reset-Holds idle w))).finished
