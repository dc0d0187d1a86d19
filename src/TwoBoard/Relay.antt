-- ===== src/TwoBoard/Relay.antt =====
-- src/two_board.c, two_board_device_run, phase 3: what the device board does with each slot that the
-- streamer hands out.
pub mod Frames
pub mod NoSplice
use hurra_v.Base.{ℕ, ◌+◌, ◌%◌, ◌^◌, Bool, true, ◌&&◌, not, List, [], ◌∷◌}
use hurra_v.Base.{leb, ◌==◌, if◌then◌else◌, get_or, slice, take}
use hurra_v.Spi.Frame.{FrameResult, ok, err_sof, err_len, err_crc, Frame, unpack, seq_gap}
use hurra_v.Xfer.Outcome.{Outcome, in_progress, complete, restart}
use hurra_v.Inject.Ring.{type_inject}
use hurra_v.Xfer.Report.{Ctx}
use hurra_v.Xfer.Report

abbrev pub type_report : ℕ
type_report = 2

-- The loop's variables and the report context.
pub record Relay : Type 0 where
  pub prev_seq : ℕ
  pub have_prev : Bool
  pub drop_count : ℕ
  pub ctx : Ctx

-- The calls that leave the loop: `usb_merge_forward_report` and `usb_merge_apply_record`.
pub data Call : Type 0 where
  forward_report : (dev_ep iface_protocol : ℕ) (report : List ℕ) → Call
  apply_record : (tag : ℕ) (b : List ℕ) → Call

abbrev pub add32 : ℕ → ℕ → ℕ
add32 a b = (a + b) % 2 ^ 32

-- Lost frames put the report context back to idle.
pub note_seq : Relay → ℕ → Relay
note_seq r seq =
    let lost = seq_gap r.prev_seq seq in
    let checked : Relay =
      if r.have_prev && not (lost == 0)
      then record r { drop_count = add32 r.drop_count lost; ctx = Report.reset r.ctx }
      else r in
    record checked { prev_seq = seq; have_prev = true }

-- What follows a call of `report_xfer_accept`; `accepts` is what `usb_merge_forward_report` returns
-- for the report in the context.
pub finish : (Ctx → Bool) → Relay → Ctx × Outcome → Relay × List Call
finish accepts r (ctx, in_progress) = (record r { ctx = ctx }, [])
finish accepts r (ctx, restart) = (
  record r {
    ctx = ctx;
    drop_count = if r.ctx.active == 0 then r.drop_count else add32 r.drop_count 1;
  },
  [],
)
finish accepts r (ctx, complete) = (
  record r { ctx = ctx; drop_count = if accepts ctx then r.drop_count else add32 r.drop_count 1 },
  forward_report ctx.dev_ep ctx.iface_protocol (take ctx.total_len ctx.report) ∷ [],
)

pub take_report : (Ctx → Bool) → Relay → Frame → Relay × List Call
take_report accepts r f = finish accepts r (Report.accept r.ctx f.payload f.len)

pub take_frame : (Ctx → Bool) → Relay → Frame → Relay × List Call
take_frame accepts r f =
    let noted = note_seq r f.seq in
    if f.type == type_report
    then take_report accepts noted f
    else if (f.type == type_inject) && leb 1 f.len
    then (noted, apply_record (get_or f.payload 0 0) (slice f.payload 1 7) ∷ [])
    else (noted, [])

-- A slot that does not unpack is counted as dropped.
pub take_result : (Ctx → Bool) → Relay → FrameResult Frame → Relay × List Call
take_result accepts r (ok f) = take_frame accepts r f
take_result accepts r _ = (record r { drop_count = add32 r.drop_count 1 }, [])

-- One slot of the streamer.
pub absorb : (Ctx → Bool) → Relay → List ℕ → Relay × List Call
absorb accepts r slot = take_result accepts r (unpack slot)
