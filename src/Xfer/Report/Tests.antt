-- ===== src/Xfer/Report/Tests.antt =====
-- Reports in fragments on concrete bytes.
use hurra_v.Base.{get_or, ℕ, ◌<◌, ◌≡◌, refl, arith, List, [], ◌∷◌, ◌++◌, map, length, replicate}
use hurra_v.Xfer.Outcome.{in_progress, complete, restart}
use hurra_v.Xfer.Report.{
  sent, Ctx, accept, accept_all, reset, store, begin, reject, pack_fragment, fragment_count,
}
use hurra_v.Xfer.Report.Bounds.{IsValid, accept_keeps_IsValid}
use hurra_v.Xfer.Report.Fragment.{Sendable}
use hurra_v.Xfer.Report.Pass.{IsDone, report_whole}
use hurra_v.Xfer.Report.Pass.InOrder.{sent_from, report_completes}

abbrev motion : List ℕ
motion = replicate 22 1 ++ (replicate 22 2 ++ (3 ∷ 4 ∷ []))

abbrev empty : Ctx
empty = record {
  report = replicate 64 0;
  total_len = 0;
  bytes_received = 0;
  expected_index = 0;
  dev_ep = 0;
  iface_protocol = 0;
  active = 0;
}

motion-Sendable : Sendable motion 2 1
motion-Sendable = record { small = omega arith; ep_pos = omega arith; ep_max = omega arith }

empty-IsValid : IsValid empty
empty-IsValid = record {
  whole = refl;
  total_fits = omega arith;
  received_fits = omega arith;
  in_step = λ e. absurd (omega (arith, e));
  flag = omega arith;
  endpoint = omega arith;
}

-- A lost fragment in the middle, then the whole report again.
lost_then_whole :
    (accept_all empty (map (sent motion 2 1) (0 ∷ 2 ∷ 0 ∷ 1 ∷ 2 ∷ []))).1
    ≡ in_progress ∷ restart ∷ in_progress ∷ in_progress ∷ complete ∷ []
unfolding accept_all sent accept reject reset store begin pack_fragment fragment_count
lost_then_whole = refl

small : get_or (sent motion 2 1 0) 0 0 < 256
unfolding sent pack_fragment fragment_count
small = omega arith

accept_keeps_IsValid_example : IsValid (accept empty (sent motion 2 1 0) 26).0
accept_keeps_IsValid_example = accept_keeps_IsValid empty (sent motion 2 1 0) 26 small empty-IsValid

in_range :
    (0 < fragment_count (length motion))
    × (1 < fragment_count (length motion))
    × (2 < fragment_count (length motion))
unfolding fragment_count
in_range = (omega arith, omega arith, omega arith)

completes :
    (accept
      (accept_all (reset empty) (map (sent motion 2 1) (0 ∷ 1 ∷ []))).0
      (sent motion 2 1 2)
      (length (sent motion 2 1 2))).1
    ≡ complete
unfolding accept_all sent accept reject reset store begin pack_fragment fragment_count
completes = refl

report_whole_example :
    IsDone motion 2 1 motion-Sendable
      (accept
        (accept_all (reset empty) (map (sent motion 2 1) (0 ∷ 1 ∷ []))).0
        (sent motion 2 1 2)
        (length (sent motion 2 1 2))).0
report_whole_example =
    report_whole motion 2 1 motion-Sendable (0 ∷ 1 ∷ []) 2 empty
      (in_range.2, (in_range.0, (in_range.1, tt))) refl completes

three : 3 ≡ fragment_count (length motion)
unfolding fragment_count
three = refl

report_completes_example :
    ((accept_all empty (sent_from motion 2 1 motion-Sendable 0 3)).1
      ≡ in_progress ∷ in_progress ∷ complete ∷ [])
    × IsDone motion 2 1 motion-Sendable
        (accept_all empty (sent_from motion 2 1 motion-Sendable 0 3)).0
report_completes_example =
    report_completes motion 2 1 motion-Sendable 3 empty (omega arith) refl three
