-- ===== src/TwoBoard/Relay/Frames.antt =====
-- What the relay loop does with a slot that the host board packed.
use hurra_v.Base.{
  ℕ, ◌+◌, ◌%◌, ◌≤◌, ◌<◌, ◌≡◌, ◌⊎◌, refl, sym, ap, ◌∙◌, arith, Bool, true, false, List, take, length,
  take_all,
}
use hurra_v.Spi.Frame.{Frame, ok, unpack, max_payload}
use hurra_v.Spi.Frame.RoundTrip.{packed, unpack-pack, seq_gap_lost}
use hurra_v.Xfer.Report.{Ctx, max_report, accept}
use hurra_v.Xfer.Report
use hurra_v.Xfer.Report.Padding.{accept-take}
use hurra_v.TwoBoard.Relay.{
  Relay, type_report, note_seq, finish, take_result, take_report, take_frame, absorb,
}

module _ (accepts : Ctx → Bool) where
  take_report-payload :
      (r : Relay) (f : Frame) (payload : List ℕ)
      → f.len ≡ length payload
      → take (length payload) f.payload ≡ payload
      → take_report accepts r f ≡ finish accepts r (accept r.ctx payload (length payload))
  unfolding take_report
  take_report-payload r f payload e p = ap (finish accepts r) (
      rw e (
        sym (accept-take r.ctx f.payload (length payload))
        ∙ ap (λ q. accept r.ctx q (length payload)) p))

  pub absorb-frame :
      (r : Relay) (slot : List ℕ) (f : Frame)
      → unpack slot ≡ ok f
      → absorb accepts r slot ≡ take_frame accepts r f
  unfolding absorb take_result
  absorb-frame r slot f e = ap (take_result accepts r) e

  take_frame-report :
      (r : Relay) (f : Frame)
      → f.type ≡ type_report
      → take_frame accepts r f ≡ take_report accepts (note_seq r f.seq) f
  unfolding take_frame
  take_frame-report r f e = ground (arith, e)

  pub absorb-report :
      (r : Relay) (seq : ℕ) (payload : List ℕ)
      → length payload ≤ max_payload
      → absorb accepts r (packed type_report seq payload (length payload))
        ≡ finish accepts (note_seq r seq) (accept (note_seq r seq).ctx payload (length payload))
  absorb-report r seq payload h =
      let u = unpack-pack type_report seq payload (length payload) h (omega arith) in
      absorb-frame r (packed type_report seq payload (length payload)) u.2 u.3
      ∙ (take_frame-report r u.2 u.4
          ∙ (ap (λ q. take_report accepts (note_seq r q) u.2) u.5
              ∙ take_report-payload (note_seq r seq) u.2 payload u.6
                  (u.7 ∙ take_all (length payload) payload (omega arith))))

-- The reset on lost frames: what it leaves of the context.
pub note_seq_cases :
    (r : Relay) (lost seq : ℕ)
    → r.prev_seq < 256
    → lost < 255
    → seq ≡ (r.prev_seq + 1 + lost) % 256
    → (r.have_prev ≡ true)
    → ((lost ≡ 0) × ((note_seq r seq).ctx ≡ r.ctx)) ⊎ ((note_seq r seq).ctx ≡ Report.reset r.ctx)
unfolding note_seq
note_seq_cases r lost seq hp hl e h =
    let g = (seq_gap_lost r.prev_seq lost hp hl).0 in rw (e, g, h) (ground arith)

pub note_seq_first : (r : Relay) (seq : ℕ) → r.have_prev ≡ false → (note_seq r seq).ctx ≡ r.ctx
unfolding note_seq
note_seq_first r seq h = rw h refl

pub note_seq_seq :
    (r : Relay) (seq : ℕ) → ((note_seq r seq).prev_seq ≡ seq) × ((note_seq r seq).have_prev ≡ true)
unfolding note_seq
note_seq_seq r seq = (refl, refl)
