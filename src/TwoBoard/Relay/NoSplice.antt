-- ===== src/TwoBoard/Relay/NoSplice.antt =====
-- The host board sends one report after another over a link that loses slots: what the device board
-- forwards is always a whole report that was sent.
pub mod Steps
mod Tests
use hurra_v.Base.{
  ℕ, zero, suc, ◌+◌, ◌-◌, ◌%◌, ◌≤◌, ◌<◌, ◌≡◌, ◌≢◌, ◌⊎◌, inl, inr, refl, sym, ap, ◌∙◌, subst, arith,
}
use hurra_v.Base.{Bool, true, false, Bool-cases, List, [], ◌∷◌, ◌++◌, take, length, ℕ_discrete}
use hurra_v.Spi.Frame.RoundTrip.{packed}
use hurra_v.Xfer.Outcome.{Outcome, in_progress, complete, restart}
use hurra_v.Xfer.Report.{Ctx, max_report, fragment_count, accept, sent}
use hurra_v.Xfer.Report
use hurra_v.Xfer.Report.Fragment.{Sendable, fragment, sent-eq-fragment, start-lt, length-fragment}
use hurra_v.Xfer.Report.Pass.{Holds, Good, accept-Good, reset-Holds, IsDone}
use hurra_v.Xfer.Report.Pass.Ends.{accept_midway}
use hurra_v.TwoBoard.Relay.{
  Relay, Call, forward_report, apply_record, type_report, note_seq, finish, absorb,
}
use hurra_v.TwoBoard.Relay.Frames.{absorb-report, note_seq_cases, note_seq_first, note_seq_seq}

-- A report for an endpoint of the device.
pub record Msg : Type 0 where
  pub report : List ℕ
  pub ep : ℕ
  pub proto : ℕ

abbrev pub IsMsg : Msg → Type 0
IsMsg m = Sendable m.report m.ep m.proto

abbrev pub count : Msg → ℕ
count m = fragment_count (length m.report)

-- The device board, the sequence number of the next slot, the slots lost since the last one that
-- arrived, the report being sent, its next fragment, and the calls so far with the report that was
-- being sent when each was made.
pub record System : Type 0 where
  pub relay : Relay
  pub seq : ℕ
  pub lost : ℕ
  pub msg : Msg
  pub k : ℕ
  pub calls : List (Msg × List Call)

abbrev pub slot : System → List ℕ
slot s =
    packed type_report s.seq (sent s.msg.report s.msg.ep s.msg.proto s.k)
      (length (sent s.msg.report s.msg.ep s.msg.proto s.k))

module _ (accepts : Ctx → Bool) where
  -- A slot arrives, a slot is lost, or the next report begins. Fewer than 255 slots are lost in a row.
  pub data Step (s : System) : System → Type 0 where
    arrives :
        {t : System}
        → s.k < count s.msg
        → t ≡ record s {
          relay = (absorb accepts s.relay (slot s)).0;
          seq = (s.seq + 1) % 256;
          lost = 0;
          k = s.k + 1;
          calls = (s.msg, (absorb accepts s.relay (slot s)).1) ∷ s.calls;
        }
        → Step s t
    loses :
        {t : System}
        → s.k < count s.msg
        → s.lost + 1 < 255
        → t ≡ record s { seq = (s.seq + 1) % 256; lost = s.lost + 1; k = s.k + 1 }
        → Step s t
    begins :
        (m : Msg) {t : System}
        → IsMsg m
        → s.k ≡ count s.msg
        → t ≡ record s { msg = m; k = 0 }
        → Step s t

  pub data Reach (s : System) : System → Type 0 where
    here : Reach s s
    next : {t u : System} → Reach s t → Step t u → Reach s u

-- A report that is forwarded is the whole report that was being sent, to its endpoint.
abbrev pub IsWhole : Msg → List Call → Type 0
IsWhole m [] = Unit
IsWhole m (forward_report ep proto report ∷ cs) =
    (ep ≡ m.ep) × (proto ≡ m.proto) × (report ≡ m.report) × IsWhole m cs
IsWhole m (apply_record tag b ∷ cs) = IsWhole m cs

abbrev pub AllWhole : List (Msg × List Call) → Type 0
AllWhole [] = Unit
AllWhole (c ∷ cs) = IsWhole c.0 c.1 × AllWhole cs

-- The context belongs to the report being sent, and is idle between reports.
pub record Owns (m : Msg) (v : IsMsg m) (k : ℕ) (ctx : Ctx) : Type 0 where
  pub holds : Holds m.report m.ep m.proto v ctx
  pub midway : ctx.active ≢ 0 → (0 < k) × (k < count m)

pub record IsSafe (s : System) : Type 0 where
  pub msg_ok : IsMsg s.msg
  pub in_report : s.k ≤ count s.msg
  pub few_lost : s.lost < 255
  pub whole : length s.relay.ctx.report ≡ max_report
  pub fresh : s.relay.have_prev ≡ false → s.relay.ctx.active ≡ 0
  pub numbered :
      s.relay.have_prev ≡ true
      → (s.relay.prev_seq < 256) × (s.seq ≡ (s.relay.prev_seq + 1 + s.lost) % 256)
  pub seq_byte : s.seq < 256
  pub owned : s.lost ≡ 0 → Owns s.msg msg_ok s.k s.relay.ctx
  pub forwarded : AllWhole s.calls

pub idle-Owns :
    (m : Msg) (v : IsMsg m) (k : ℕ) (ctx : Ctx)
    → length ctx.report ≡ max_report
    → ctx.active ≡ 0
    → Owns m v k ctx
idle-Owns m v k ctx w a = record {
  holds = record { whole = w; header = λ ne. absurd (ne a); held = λ ne. absurd (ne a) };
  midway = λ ne. absurd (ne a);
}

reset_idle :
    (ctx : Ctx) → ((Report.reset ctx).active ≡ 0) × ((Report.reset ctx).report ≡ ctx.report)
unfolding Report.reset
reset_idle ctx = (refl, refl)

-- When a slot arrives the check of its sequence number leaves no context of another report.
pub noted-Owns : (s : System) (v : IsSafe s) → Owns s.msg v.msg_ok s.k (note_seq s.relay s.seq).ctx
noted-Owns s v =
    let idle = reset_idle s.relay.ctx in
    let start =
      idle-Owns s.msg v.msg_ok s.k (Report.reset s.relay.ctx)
        (ap (λ xs. length xs) idle.1 ∙ v.whole) idle.0 in
    elim (Bool-cases s.relay.have_prev) [
      | inr e ↦
          subst (Owns s.msg v.msg_ok s.k) (sym (note_seq_first s.relay s.seq e))
            (idle-Owns s.msg v.msg_ok s.k s.relay.ctx v.whole (v.fresh e))
      | inl e ↦
          elim (note_seq_cases s.relay s.lost s.seq (v.numbered e).0 v.few_lost (v.numbered e).1
            e) [
              | inl same ↦ subst (Owns s.msg v.msg_ok s.k) (sym same.1) (v.owned same.0)
              | inr back ↦ subst (Owns s.msg v.msg_ok s.k) (sym back) start
            ]
    ]

pub accept-Owns :
    (m : Msg) (v : IsMsg m) (k : ℕ) (ctx : Ctx)
    → k < count m
    → Owns m v k ctx
    → Owns m v
        (k + 1)
        (accept ctx
          (fragment m.report m.ep m.proto k)
          (length (fragment m.report m.ep m.proto k))).0
accept-Owns m v k ctx inside o = record {
  holds = (accept-Good m.report m.ep m.proto v ctx k inside o.holds).holds;
  midway = λ ne. (omega arith, accept_midway m.report m.ep m.proto v k ctx inside ne);
}

-- `finish` keeps the context and the number, and forwards the report of the context.
pub finish_lem :
    (accepts : Ctx → Bool) (r : Relay) (m : Msg) (v : IsMsg m) (res : Ctx × Outcome)
    → Good m.report m.ep m.proto v res
    → ((finish accepts r res).0.ctx ≡ res.0)
      × ((finish accepts r res).0.prev_seq ≡ r.prev_seq)
      × ((finish accepts r res).0.have_prev ≡ r.have_prev)
      × IsWhole m (finish accepts r res).1
unfolding finish
finish_lem accepts r m v (ctx, in_progress) g = (refl, refl, refl, tt)
finish_lem accepts r m v (ctx, restart) g = (refl, refl, refl, tt)
finish_lem accepts r m v (ctx, complete) g =
    let d = g.finished refl in (refl, refl, refl, (d.2, d.3, d.0, tt))
