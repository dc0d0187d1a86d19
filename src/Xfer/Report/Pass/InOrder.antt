-- ===== src/Xfer/Report/Pass/InOrder.antt =====
-- All the fragments of one report, in order, whatever the receiver had before.
use hurra_v.Base.{ℕ, zero, suc, ◌+◌, ◌-◌, ◌<◌, ◌≡◌, ◌⊎◌, inl, inr, refl, ap, ap₂, sym, ◌∙◌, arith}
use hurra_v.Base.{List, [], ◌∷◌, ◌++◌, length, replicate, leb, false}
use hurra_v.Xfer.Outcome.{Outcome, in_progress, complete}
use hurra_v.Xfer.Report.{sent, Ctx, max_report, fragment_count, accept, accept_all, begin, reset}
use hurra_v.Xfer.Report.Bounds.{Continues}
use hurra_v.Xfer.Report.Fragment.{
  start, bytes_in, fragment, Sendable, start-lt, sent-eq-fragment, accept-fragment,
}
use hurra_v.Xfer.Report.Pass.{count, Holds, IsDone, accept-Good, reset-Holds}

module _ (report : List ℕ) (ep proto : ℕ) (v : Sendable report ep proto) where
  -- The payloads of `send_report_frames`, from fragment `k` on.
  abbrev pub sent_from : ℕ → ℕ → List (List ℕ)
  sent_from k zero = []
  sent_from k (suc n) = sent report ep proto k ∷ sent_from (k + 1) n

  -- A call that starts the report, or continues it.
  abbrev Next : Ctx → ℕ → Type 0
  Next ctx k = (k ≡ 0) ⊎ Continues ctx (fragment report ep proto k)

  step_last :
      (ctx : Ctx) (k : ℕ)
      → k + 1 ≡ count report ep proto v
      → Next ctx k
      → (accept ctx (fragment report ep proto k) (length (fragment report ep proto k))).1 ≡ complete
  unfolding fragment_count
  step_last ctx k e f =
      let inside : k < count report ep proto v = omega arith in
      rw (accept-fragment report ep proto v k inside ctx f)
        (ground (arith, start-lt report ep proto v k inside, e, v.small))

  step_more :
      (ctx : Ctx) (k : ℕ)
      → k + 1 < count report ep proto v
      → Next ctx k
      → ((accept ctx (fragment report ep proto k) (length (fragment report ep proto k))).1
          ≡ in_progress)
        × Continues
            (accept ctx (fragment report ep proto k) (length (fragment report ep proto k))).0
            (fragment report ep proto (k + 1))
  unfolding begin
  step_more ctx k h f =
      let inside : k < count report ep proto v = omega arith in
      let short : leb (length report) (start report ep proto k + bytes_in report ep proto k)
          ≡ false =
        ground (arith, start-lt report ep proto v k inside, start-lt report ep proto v (k + 1) h) in
      rw (accept-fragment report ep proto v k inside ctx f, short) (refl, ground (arith, f))

  pass_rest :
      (n k : ℕ) (ctx : Ctx)
      → k + suc n ≡ count report ep proto v
      → Holds report ep proto v ctx
      → Next ctx k
      → ((accept_all ctx (sent_from k (suc n))).1 ≡ replicate n in_progress ++ (complete ∷ []))
        × IsDone report ep proto v (accept_all ctx (sent_from k (suc n))).0
  unfolding accept_all
  pass_rest zero k ctx e h f =
      let done = step_last ctx k e f in
      rw (sent-eq-fragment report ep proto v k (omega arith)) (
        ap (λ (r : Outcome). r ∷ []) done,
        (accept-Good report ep proto v ctx k (omega arith) h).finished done,
      )
  pass_rest (suc n) k ctx e h f =
      let one = step_more ctx k (omega arith) f in
      let rest =
        pass_rest n (k + 1)
          (accept ctx (fragment report ep proto k) (length (fragment report ep proto k))).0
          (omega arith) (accept-Good report ep proto v ctx k (omega arith) h).holds (inr one.1) in
      rw (sent-eq-fragment report ep proto v k (omega arith)) (ap₂ ◌∷◌ one.0 rest.0, rest.1)

  -- The first fragment makes no use of what was there before.
  first_resets :
      (ctx : Ctx)
      → 0 < count report ep proto v
      → accept ctx (sent report ep proto 0) (length (sent report ep proto 0))
        ≡ accept (reset ctx) (sent report ep proto 0) (length (sent report ep proto 0))
  unfolding reset begin
  first_resets ctx pos = rw (sent-eq-fragment report ep proto v 0 pos) (
      accept-fragment report ep proto v 0 pos ctx (inl refl)
      ∙ sym (accept-fragment report ep proto v 0 pos (reset ctx) (inl refl)))

  pass_resets :
      (n : ℕ) (ctx : Ctx)
      → 0 < count report ep proto v
      → accept_all ctx (sent_from 0 (suc n)) ≡ accept_all (reset ctx) (sent_from 0 (suc n))
  unfolding accept_all
  pass_resets n ctx pos = rw (first_resets ctx pos)

  count-pos : 0 < length report → 0 < count report ep proto v
  unfolding fragment_count
  count-pos h = ground (arith, v.small)

  -- All the fragments of a report of 1 to 64 bytes for an endpoint of 1 to 15, in order, whatever the
  -- receiver had before: every call but the last reports progress, the last reports completion, and
  -- the context holds the report, its length, endpoint and protocol.
  pub report_completes :
      (n : ℕ) (ctx : Ctx)
      → 0 < length report
      → length ctx.report ≡ max_report
      → n ≡ fragment_count (length report)
      → ((accept_all ctx (sent_from 0 n)).1 ≡ replicate (n - 1) in_progress ++ (complete ∷ []))
        × IsDone report ep proto v (accept_all ctx (sent_from 0 n)).0
  report_completes zero ctx pos w e = absurd (omega (arith, count-pos pos))
  report_completes (suc n) ctx pos w e =
      let pred : suc n - 1 ≡ n = omega arith in
      rw (pred, pass_resets n ctx (omega arith))
        (pass_rest n 0 (reset ctx) (omega arith) (reset-Holds report ep proto v ctx w) (inl refl))
