-- ===== src/Xfer/Desc/Pass.antt =====
-- A whole pass over a blob, in order.
use hurra_v.Base.{ℕ, zero, suc, ◌+◌, ◌-◌, ◌≤◌, ◌<◌}
use hurra_v.Base.{◌≡◌, refl, sym, ap, ap₂, ◌∙◌, ◌≢◌, inl, inr, arith}
use hurra_v.Base.{List, [], ◌∷◌, ◌++◌, length, take, replicate, leb}
use hurra_v.Base.{false}
use hurra_v.Xfer.Outcome.{Outcome, in_progress, complete}
use hurra_v.Xfer.Desc.{Ctx, buf_max, chunk_count, accept, accept_all, reset, sent}
use hurra_v.Xfer.Desc.Chunk.{start, bytes_in, chunk, outcome, start-lt}
use hurra_v.Xfer.Desc.Chunk.{sent-eq-chunk}
use hurra_v.Xfer.Desc.Order.{count, Fits, entered, accept-Fits, Holds, accept-Good, reset-Holds}

module _ (blob : List ℕ) (small : length blob ≤ buf_max) where
  -- The chunks from `k` on, in order, as the sender's loop packs them.
  abbrev pub pass : ℕ → ℕ → List (List ℕ)
  pass k zero = []
  pass k (suc n) = chunk blob small k ∷ pass (k + 1) n

  outcome_last :
      (k : ℕ) (inside : k < count blob small)
      → k + 1 ≡ count blob small
      → outcome blob small k inside ≡ complete
  unfolding chunk_count
  outcome_last k inside e = ground (arith, start-lt blob small k inside)

  outcome_more :
      (k : ℕ) (inside : k < count blob small)
      → k + 1 < count blob small
      → (leb (length blob) (start blob small k + bytes_in blob small k) ≡ false)
  outcome_more k inside h =
      ground (arith, start-lt blob small k inside, start-lt blob small (k + 1) h)

  step_last :
      (ctx : Ctx) (k : ℕ)
      → k + 1 ≡ count blob small
      → Fits blob small ctx k
      → (accept ctx (chunk blob small k) (length (chunk blob small k))).1 ≡ complete
  step_last ctx k e f =
      let inside : k < count blob small = omega arith in
      ap (λ (r : Ctx × Outcome). r.1) (accept-Fits blob small ctx k inside f)
      ∙ outcome_last k inside e

  step_more :
      (ctx : Ctx) (k : ℕ)
      → k + 1 < count blob small
      → Fits blob small ctx k
      → ((accept ctx (chunk blob small k) (length (chunk blob small k))).1 ≡ in_progress)
        × Fits blob small (accept ctx (chunk blob small k) (length (chunk blob small k))).0 (k + 1)
  step_more ctx k h f =
      let inside : k < count blob small = omega arith in
      let short = outcome_more k inside h in
      rw (accept-Fits blob small ctx k inside f) (rw short (refl, inr (active f, refl, refl)))
    where
      active : Fits blob small ctx k → (entered blob small ctx k).active ≢ 0
      active f = ground arith

  pass_rest :
      (n k : ℕ) (ctx : Ctx)
      → k + suc n ≡ count blob small
      → Holds blob small ctx
      → Fits blob small ctx k
      → ((accept_all ctx (pass k (suc n))).1 ≡ replicate n in_progress ++ (complete ∷ []))
        × (take (length blob) (accept_all ctx (pass k (suc n))).0.buf ≡ blob)
  unfolding accept_all
  pass_rest zero k ctx e h f =
      let done = step_last ctx k e f in
      (
        ap (λ (r : Outcome). r ∷ []) done,
        ((accept-Good blob small ctx k (omega arith) h).finished done).0,
      )
  pass_rest (suc n) k ctx e h f =
      let one = step_more ctx k (omega arith) f in
      let rest =
        pass_rest n (k + 1) (accept ctx (chunk blob small k) (length (chunk blob small k))).0
          (omega arith) (accept-Good blob small ctx k (omega arith) h).holds one.1 in
      (ap₂ ◌∷◌ one.0 rest.0, rest.1)

  -- The first chunk makes no use of what was there before.
  first_resets :
      (ctx : Ctx)
      → 0 < count blob small
      → accept ctx (chunk blob small 0) (length (chunk blob small 0))
        ≡ accept (reset ctx) (chunk blob small 0) (length (chunk blob small 0))
  unfolding reset
  first_resets ctx pos =
      accept-Fits blob small ctx 0 pos (inl refl)
      ∙ sym (accept-Fits blob small (reset ctx) 0 pos (inl refl))

  pass_resets :
      (n : ℕ) (ctx : Ctx)
      → 0 < count blob small
      → accept_all ctx (pass 0 (suc n)) ≡ accept_all (reset ctx) (pass 0 (suc n))
  unfolding accept_all
  pass_resets n ctx pos = rw (first_resets ctx pos)

  count-pos : 0 < length blob → 0 < count blob small
  unfolding chunk_count
  count-pos h = ground arith

  -- The payloads of `send_descriptor_blob`, from chunk `k` on.
  abbrev pub sent_from : ℕ → ℕ → List (List ℕ)
  sent_from k zero = []
  sent_from k (suc n) = sent blob k ∷ sent_from (k + 1) n

  sent_from-eq-pass : (n k : ℕ) → k + n ≡ count blob small → sent_from k n ≡ pass k n
  sent_from-eq-pass zero k e = refl
  sent_from-eq-pass (suc n) k e =
      ap₂ ◌∷◌ (sent-eq-chunk blob small k (omega arith)) (sent_from-eq-pass n (k + 1) (omega arith))

  pass_completes_suc :
      (n : ℕ) (ctx : Ctx)
      → suc n ≡ count blob small
      → length ctx.buf ≡ buf_max
      → ((accept_all ctx (pass 0 (suc n))).1 ≡ replicate n in_progress ++ (complete ∷ []))
        × (take (length blob) (accept_all ctx (pass 0 (suc n))).0.buf ≡ blob)
  pass_completes_suc n ctx e w =
      rw (pass_resets n ctx (omega arith))
        (pass_rest n 0 (reset ctx) (omega arith) (reset-Holds blob small ctx w) (inl refl))

  -- A whole pass of a blob that is not empty, in order, whatever the receiver had before: every call
  -- but the last reports progress, the last reports completion, and the buffer holds the blob.
  pub pass_completes :
      (n : ℕ) (ctx : Ctx)
      → 0 < length blob
      → length ctx.buf ≡ buf_max
      → n ≡ chunk_count (length blob)
      → ((accept_all ctx (sent_from 0 n)).1 ≡ replicate (n - 1) in_progress ++ (complete ∷ []))
        × (take (length blob) (accept_all ctx (sent_from 0 n)).0.buf ≡ blob)
  pass_completes zero ctx pos w e = absurd (omega (arith, count-pos pos))
  pass_completes (suc n) ctx pos w e =
      let pred : suc n - 1 ≡ n = omega arith in
      rw (sent_from-eq-pass (suc n) 0 (omega arith), pred) (pass_completes_suc n ctx e w)
