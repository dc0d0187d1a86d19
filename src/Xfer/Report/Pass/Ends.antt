-- ===== src/Xfer/Report/Pass/Ends.antt =====
-- The last fragment of a report leaves no report in progress.
use hurra_v.Base.{ℕ, ◌+◌, ◌<◌, ◌≢◌, inl, inr, ap, ◌∙◌, arith, List, length}
use hurra_v.Xfer.Outcome.{Outcome}
use hurra_v.Xfer.Report.{Ctx, fragment_count, accept, reset, reject}
use hurra_v.Xfer.Report.Bounds.{entered, accept-cases}
use hurra_v.Xfer.Report.Fragment.{fragment, Sendable, start-lt, after, accept-fragment}

module _ (report : List ℕ) (ep proto : ℕ) (v : Sendable report ep proto) where
  after_midway :
      (k : ℕ) (inside : k < fragment_count (length report)) (ctx : Ctx)
      → (after report ep proto v k inside ctx).active ≢ 0
      → k + 1 < fragment_count (length report)
  unfolding fragment_count
  after_midway k inside ctx ne =
      ground (arith, start-lt report ep proto v k inside, inside, v.small)

  pub accept_midway :
      (k : ℕ) (ctx : Ctx)
      → k < fragment_count (length report)
      → (accept ctx (fragment report ep proto k) (length (fragment report ep proto k))).0.active ≢ 0
      → k + 1 < fragment_count (length report)
  unfolding reject reset
  accept_midway k ctx inside ne =
      let s = start-lt report ep proto v k inside in
      elim (accept-cases ctx (fragment report ep proto k) (length (fragment report ep proto k))
        (omega (arith, s.1))) [
          | inl e ↦ absurd (ne (ap (λ (r : Ctx × Outcome). r.0.active) e))
          | inr c ↦ after_midway k inside (entered ctx (fragment report ep proto k)) (λ e. ne (
              ap (λ (r : Ctx × Outcome). r.0.active)
                (accept-fragment report ep proto v k inside ctx c.2)
              ∙ e))
        ]
