-- ===== src/TwoBoard/Relay/NoSplice/Tests.antt =====
-- Three reports for one endpoint, where the last slot of the first and the first slot of the second
-- are lost.
use hurra_v.Base.{ℕ, ◌+◌, ◌%◌, ◌≡◌, refl, arith, Bool, true, ◌∷◌, replicate}
use hurra_v.Xfer.Report.{Ctx, fragment_count}
use hurra_v.TwoBoard.Relay.{absorb}
use hurra_v.TwoBoard.Relay.NoSplice.{
  Msg, IsMsg, count, System, slot, arrives, loses, begins, Reach, here, next, AllWhole,
}
use hurra_v.TwoBoard.Relay.NoSplice.Steps.{start, no_splice}

abbrev idle : Ctx
idle = record {
  report = replicate 64 0;
  total_len = 0;
  bytes_received = 0;
  expected_index = 0;
  dev_ep = 0;
  iface_protocol = 0;
  active = 0;
}

-- Reports of 23 bytes, in two fragments each.
abbrev msg : ℕ → Msg
msg x = record { report = replicate 23 x; ep = 1; proto = 2 }

msg-IsMsg : (x : ℕ) → IsMsg (msg x)
msg-IsMsg x = record { small = omega arith; ep_pos = omega arith; ep_max = omega arith }

two : (x : ℕ) → count (msg x) ≡ 2
unfolding fragment_count
two x = refl

abbrev always : Ctx → Bool
always ctx = true

abbrev arrive : System → System
arrive s = record s {
  relay = (absorb always s.relay (slot s)).0;
  seq = (s.seq + 1) % 256;
  lost = 0;
  k = s.k + 1;
  calls = (s.msg, (absorb always s.relay (slot s)).1) ∷ s.calls;
}

abbrev lose : System → System
lose s = record s { seq = (s.seq + 1) % 256; lost = s.lost + 1; k = s.k + 1 }

abbrev begin : Msg → System → System
begin m s = record s { msg = m; k = 0 }

abbrev s0 : System
s0 = start always idle (msg 1) 254

abbrev end : System
end = arrive (arrive (begin (msg 3) (arrive (lose (begin (msg 2) (lose (arrive s0)))))))

run : Reach always s0 end
run =
    next
      (next
        (next
          (next
            (next
              (next
                (next (next here (arrives (omega (arith, two 1)) refl))
                  (loses (omega (arith, two 1)) (omega arith) refl))
                (begins (msg 2) (msg-IsMsg 2) (omega (arith, two 1)) refl))
              (loses (omega (arith, two 2)) (omega arith) refl))
            (arrives (omega (arith, two 2)) refl))
          (begins (msg 3) (msg-IsMsg 3) (omega (arith, two 2)) refl))
        (arrives (omega (arith, two 3)) refl))
      (arrives (omega (arith, two 3)) refl)

no_splice_example : AllWhole end.calls
no_splice_example = no_splice always idle (msg 1) 254 end refl (msg-IsMsg 1) (omega arith) run
