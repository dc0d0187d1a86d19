-- ===== src/TwoBoard/Relay/NoSplice/Steps.antt =====
-- Every step keeps the two boards in agreement.
use hurra_v.Base.{ℕ, ◌+◌, ◌%◌, ◌<◌, ◌≡◌, ◌≢◌, refl, sym, subst, arith}
use hurra_v.Base.{Bool, false, [], ◌∷◌, length}
use hurra_v.Xfer.Outcome.{Outcome}
use hurra_v.Xfer.Report.{Ctx, max_report, accept, sent}
use hurra_v.Xfer.Report
use hurra_v.Xfer.Report.Fragment.{fragment, sent-eq-fragment, length-fragment}
use hurra_v.Xfer.Report.Pass.{accept-Good}
use hurra_v.TwoBoard.Relay.{note_seq, finish, absorb}
use hurra_v.TwoBoard.Relay.Frames.{absorb-report, note_seq_seq}
use hurra_v.TwoBoard.Relay.NoSplice.{
  Msg, IsMsg, count, System, slot, Step, arrives, loses, begins, Reach, here, next, AllWhole, Owns,
  IsSafe, idle-Owns, noted-Owns, accept-Owns, finish_lem,
}

-- What the device board makes of the slot that carries the next fragment.
abbrev outcome : System → Ctx × Outcome
outcome s =
    let p = fragment s.msg.report s.msg.ep s.msg.proto s.k in
    accept (note_seq s.relay s.seq).ctx p (length p)

module _ (accepts : Ctx → Bool) where
  absorb-slot :
      (s : System)
      → IsMsg s.msg
      → s.k < count s.msg
      → absorb accepts s.relay (slot s) ≡ finish accepts (note_seq s.relay s.seq) (outcome s)
  absorb-slot s v inside =
      let len = length-fragment s.msg.report s.msg.ep s.msg.proto v s.k inside in
      rw (sent-eq-fragment s.msg.report s.msg.ep s.msg.proto v s.k inside) (
        absorb-report accepts s.relay s.seq (fragment s.msg.report s.msg.ep s.msg.proto s.k)
          (omega (arith, len)))

  arrives-IsSafe :
      (s : System)
      → s.k < count s.msg
      → IsSafe s
      → IsSafe (record s {
        relay = (absorb accepts s.relay (slot s)).0;
        seq = (s.seq + 1) % 256;
        lost = 0;
        k = s.k + 1;
        calls = (s.msg, (absorb accepts s.relay (slot s)).1) ∷ s.calls;
      })
  arrives-IsSafe s inside v =
      let o = noted-Owns s v in
      let good =
        accept-Good s.msg.report s.msg.ep s.msg.proto v.msg_ok (note_seq s.relay s.seq).ctx s.k
          inside o.holds in
      let owns = accept-Owns s.msg v.msg_ok s.k (note_seq s.relay s.seq).ctx inside o in
      let f = finish_lem accepts (note_seq s.relay s.seq) s.msg v.msg_ok (outcome s) good in
      let n = note_seq_seq s.relay s.seq in
      rw (absorb-slot s v.msg_ok inside) (record {
        msg_ok = v.msg_ok;
        in_report = omega (arith, inside);
        few_lost = omega arith;
        whole = rw f.0 owns.holds.whole;
        fresh = λ e. absurd (ground (arith, e, f.2, n.1));
        numbered = λ e. (omega (arith, f.1, n.0, v.seq_byte), omega (arith, f.1, n.0));
        seq_byte = omega arith;
        owned = λ e. subst (Owns s.msg v.msg_ok (s.k + 1)) (sym f.0) owns;
        forwarded = (f.3, v.forwarded);
      })

  loses-IsSafe :
      (s : System)
      → s.k < count s.msg
      → s.lost + 1 < 255
      → IsSafe s
      → IsSafe (record s { seq = (s.seq + 1) % 256; lost = s.lost + 1; k = s.k + 1 })
  loses-IsSafe s inside few v = record {
    msg_ok = v.msg_ok;
    in_report = omega (arith, inside);
    few_lost = few;
    whole = v.whole;
    fresh = v.fresh;
    numbered = λ e. ((v.numbered e).0, omega (arith, (v.numbered e).1));
    seq_byte = omega arith;
    owned = λ e. absurd (omega (arith, e));
    forwarded = v.forwarded;
  }

  begins-IsSafe :
      (s : System) (m : Msg)
      → IsMsg m
      → s.k ≡ count s.msg
      → IsSafe s
      → IsSafe (record s { msg = m; k = 0 })
  begins-IsSafe s m ok e v = record {
    msg_ok = ok;
    in_report = omega arith;
    few_lost = v.few_lost;
    whole = v.whole;
    fresh = v.fresh;
    numbered = v.numbered;
    seq_byte = v.seq_byte;
    owned = λ z. idle-Owns m ok 0 s.relay.ctx v.whole (idle (v.owned z).midway);
    forwarded = v.forwarded;
  }
    where
      idle : (s.relay.ctx.active ≢ 0 → (0 < s.k) × (s.k < count s.msg)) → s.relay.ctx.active ≡ 0
      idle h = ground (arith, h, e)

  Step-IsSafe : {s t : System} → Step accepts s t → IsSafe s → IsSafe t
  Step-IsSafe {s} (arrives h e) v = subst IsSafe (sym e) (arrives-IsSafe s h v)
  Step-IsSafe {s} (loses h f e) v = subst IsSafe (sym e) (loses-IsSafe s h f v)
  Step-IsSafe {s} (begins m h k e) v = subst IsSafe (sym e) (begins-IsSafe s m h k v)

  Reach-IsSafe : {s t : System} → Reach accepts s t → IsSafe s → IsSafe t
  Reach-IsSafe here v = v
  Reach-IsSafe (next r x) v = Step-IsSafe x (Reach-IsSafe r v)

  -- The device board as it enters the loop, and the host board about to send its first report.
  abbrev pub start : Ctx → Msg → ℕ → System
  start ctx m seq = record {
    relay = record { prev_seq = 0; have_prev = false; drop_count = 0; ctx = Report.reset ctx };
    seq = seq;
    lost = 0;
    msg = m;
    k = 0;
    calls = [];
  }

  start-IsSafe :
      (ctx : Ctx) (m : Msg) (seq : ℕ)
      → length ctx.report ≡ max_report
      → IsMsg m
      → seq < 256
      → IsSafe (start ctx m seq)
  unfolding Report.reset
  start-IsSafe ctx m seq w ok b = record {
    msg_ok = ok;
    in_report = omega arith;
    few_lost = omega arith;
    whole = w;
    fresh = λ e. refl;
    numbered = λ e. absurd (ground (arith, e));
    seq_byte = b;
    owned = λ e. idle-Owns m ok 0 (Report.reset ctx) w refl;
    forwarded = tt;
  }

  -- The host board sends reports of at most 64 bytes, for endpoints 1 to 15, one after another, each
  -- in consecutively numbered fragments, and the link loses slots, fewer than 255 in a row: every
  -- report that the relay loop forwards is the whole report that was being sent, with its endpoint and
  -- protocol, never one spliced from two.
  pub no_splice :
      (ctx : Ctx) (m : Msg) (seq : ℕ) (s : System)
      → length ctx.report ≡ max_report
      → IsMsg m
      → seq < 256
      → Reach accepts (start ctx m seq) s
      → AllWhole s.calls
  no_splice ctx m seq s w ok b r = (Reach-IsSafe r (start-IsSafe ctx m seq w ok b)).forwarded
