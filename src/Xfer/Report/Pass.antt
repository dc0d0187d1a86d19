-- ===== src/Xfer/Report/Pass.antt =====
-- The fragments of one report, in any order with losses and repeats.
pub mod InOrder
pub mod Ends
use hurra_v.Base.{
  ℕ, zero, suc, ◌+◌, ◌-◌, ◌≤◌, ◌<◌, ◌≡◌, ◌≢◌, ◌⊎◌, inl, inr, refl, ap, ap₂, sym, ◌∙◌, arith,
}
use hurra_v.Base.{
  List, [], ◌∷◌, ◌++◌, map, length, slice, copy, take, replicate, leb, false, get_or,
}
use hurra_v.Base.{length-slice, take_all, take-copy, take-add, length-copy, take_zero}
use hurra_v.Xfer.Outcome.{Outcome, in_progress, complete, restart}
use hurra_v.Xfer.Report.{
  sent, Ctx, max_report, fragment_count, accept, accept_all, reset, reject, begin,
}
use hurra_v.Xfer.Report.Bounds.{entered, Continues, accept-cases}
use hurra_v.Xfer.Report.Fragment.{
  start, bytes_in, fragment, Sendable, start-lt, sent-eq-fragment, after, outcome, accept-fragment,
  length-fragment,
}

module _ (report : List ℕ) (ep proto : ℕ) (v : Sendable report ep proto) where
  abbrev pub count : ℕ
  count = fragment_count (length report)

  -- While the report is in progress, its header and the fragments received are in the context.
  pub record Holds (ctx : Ctx) : Type 0 where
    pub whole : length ctx.report ≡ max_report
    pub header :
        ctx.active ≢ 0
        → (ctx.total_len ≡ length report) × (ctx.dev_ep ≡ ep) × (ctx.iface_protocol ≡ proto)
    pub held :
        ctx.active ≢ 0
        → take (start report ep proto ctx.expected_index) ctx.report
          ≡ take (start report ep proto ctx.expected_index) report

  -- The report and where it is to go, in the context.
  abbrev pub IsDone : Ctx → Type 0
  IsDone ctx =
      (take ctx.total_len ctx.report ≡ report)
      × (ctx.total_len ≡ length report)
      × (ctx.dev_ep ≡ ep)
      × (ctx.iface_protocol ≡ proto)

  pub record Good (r : Ctx × Outcome) : Type 0 where
    pub holds : Holds r.0
    pub finished : r.1 ≡ complete → IsDone r.0

  stored_prefix :
      (buf : List ℕ) (k end : ℕ)
      → k < count
      → length buf ≡ max_report
      → end ≡ start report ep proto k + bytes_in report ep proto k
      → take (start report ep proto k) buf ≡ take (start report ep proto k) report
      → take end (
          copy buf
            (start report ep proto k)
            (slice report (start report ep proto k) (bytes_in report ep proto k)))
        ≡ take end report
  stored_prefix buf k end inside w e h =
      let s = (start-lt report ep proto v k inside).0 in
      let n =
        length-slice report (start report ep proto k) (bytes_in report ep proto k)
          (omega (arith, s)) in
      take-copy buf (start report ep proto k) end
        (slice report (start report ep proto k) (bytes_in report ep proto k)) (omega (arith, n, e))
        (omega (arith, e, s, w, v.small))
      ∙ (ap
            (λ (l : List ℕ).
              l ++ slice report (start report ep proto k) (bytes_in report ep proto k))
            h
          ∙ sym
              (take-add (start report ep proto k) (bytes_in report ep proto k) end report (sym e)))

  after-Good :
      (ctx : Ctx) (k : ℕ) (inside : k < count)
      → length ctx.report ≡ max_report
      → ctx.total_len ≡ length report
      → ctx.dev_ep ≡ ep
      → ctx.iface_protocol ≡ proto
      → take (start report ep proto k) ctx.report ≡ take (start report ep proto k) report
      → Good (after report ep proto v k inside ctx, outcome report ep proto v k inside)
  after-Good ctx k inside w t d p h =
      let s = (start-lt report ep proto v k inside).0 in
      let n =
        length-slice report (start report ep proto k) (bytes_in report ep proto k)
          (omega (arith, s)) in
      record {
        holds = record {
          whole =
              length-copy ctx.report (start report ep proto k)
                (slice report (start report ep proto k) (bytes_in report ep proto k))
                (omega (arith, n, s, w, v.small))
              ∙ w;
          header = λ ne. (t, d, p);
          held = λ ne.
              stored_prefix ctx.report k (start report ep proto (k + 1)) inside w (unfinished ne) h;
        };
        finished = λ e. (
          stored_prefix ctx.report k ctx.total_len inside w (t ∙ ended e) h
              ∙ take_all ctx.total_len report (omega (arith, t)),
          t,
          d,
          p,
        );
      }
    where
      unfinished :
          (after report ep proto v k inside ctx).active ≢ 0
          → start report ep proto (k + 1) ≡ start report ep proto k + bytes_in report ep proto k
      unfinished ne = ground (arith, start-lt report ep proto v k inside)

      ended :
          outcome report ep proto v k inside ≡ complete
          → length report ≡ start report ep proto k + bytes_in report ep proto k
      ended e = ground (arith, start-lt report ep proto v k inside)

  pub reset-Holds : (ctx : Ctx) → length ctx.report ≡ max_report → Holds (reset ctx)
  unfolding reset
  reset-Holds ctx w = record {
    whole = w;
    header = λ ne. absurd (ne refl);
    held = λ ne. absurd (ne refl);
  }

  entered-Good :
      (ctx : Ctx) (k : ℕ)
      → k < count
      → Holds ctx
      → (k ≡ 0) ⊎ Continues ctx (fragment report ep proto k)
      → Good (accept ctx (fragment report ep proto k) (length (fragment report ep proto k)))
  unfolding begin
  entered-Good ctx k inside h (inl e) =
      rw (accept-fragment report ep proto v k inside ctx (inl e)) (
        after-Good (entered ctx (fragment report ep proto k)) k inside (ground (arith, h.whole))
          (ground arith) (ground arith) (ground arith)
          (take_zero _ (start report ep proto k) (omega arith)
            ∙ sym (take_zero report (start report ep proto k) (omega arith))))
  entered-Good ctx k inside h (inr c) =
      let t = h.header c.is_active in
      let same : (entered ctx (fragment report ep proto k)).report ≡ ctx.report = ground arith in
      rw (accept-fragment report ep proto v k inside ctx (inr c)) (
        after-Good (entered ctx (fragment report ep proto k)) k inside (ground (arith, h.whole))
          (ground (arith, t.0)) (ground (arith, t.1)) (ground (arith, t.2))
          (rw (same, c.index) (h.held c.is_active)))

  pub accept-Good :
      (ctx : Ctx) (k : ℕ)
      → k < count
      → Holds ctx
      → Good (accept ctx (fragment report ep proto k) (length (fragment report ep proto k)))
  unfolding reject
  accept-Good ctx k inside h =
      let s = start-lt report ep proto v k inside in
      elim (accept-cases ctx (fragment report ep proto k) (length (fragment report ep proto k))
        (omega (arith, s.1))) [
          | inl e ↦ rw e (record { holds = reset-Holds ctx h.whole; finished = λ e. absurd (cc) })
          | inr c ↦ entered-Good ctx k inside h c.2
        ]

  abbrev pub InRange : List ℕ → Type 0
  InRange [] = Unit
  InRange (k ∷ ks) = (k < count) × InRange ks

  accept_all-Holds :
      (ks : List ℕ) (ctx : Ctx)
      → InRange ks
      → Holds ctx
      → Holds (accept_all ctx (map (sent report ep proto) ks)).0
  unfolding accept_all
  accept_all-Holds [] ctx r h = h
  accept_all-Holds (k ∷ ks) ctx r h = rw (sent-eq-fragment report ep proto v k r.0) (
      accept_all-Holds ks
        (accept ctx (fragment report ep proto k) (length (fragment report ep proto k))).0 r.1
        (accept-Good ctx k r.0 h).holds)

  -- Fragments of one report that arrive in any order, lost or repeated at will, after a reset: where
  -- the reassembler reports completion, it holds the whole report, its length, endpoint and protocol.
  pub report_whole :
      (ks : List ℕ) (k : ℕ) (idle : Ctx)
      → InRange (k ∷ ks)
      → length idle.report ≡ max_report
      → (accept
          (accept_all (reset idle) (map (sent report ep proto) ks)).0
          (sent report ep proto k)
          (length (sent report ep proto k))).1
        ≡ complete
      → IsDone
          (accept
            (accept_all (reset idle) (map (sent report ep proto) ks)).0
            (sent report ep proto k)
            (length (sent report ep proto k))).0
  report_whole ks k idle r w =
      rw (sent-eq-fragment report ep proto v k r.0)
        (accept-Good (accept_all (reset idle) (map (sent report ep proto) ks)).0 k r.0
          (accept_all-Holds ks (reset idle) r.1 (reset-Holds idle w))).finished
