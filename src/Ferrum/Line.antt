-- ===== src/Ferrum/Line.antt =====
-- src/ferrum.c: the line buffer, and the public functions but for the hooks.
pub mod Feeds
pub mod Printed
pub mod Room
pub mod Caught
use hurra_v.Base.{
  ℕ, zero, suc, ◌+◌, ◌-◌, ◌%◌, ◌^◌, Bool, true, false, not, ◌&&◌, ◌||◌, Option, none, some,
}
use hurra_v.Base.{List, [], ◌∷◌, ◌++◌, length, replicate, ltb, ◌==◌, if◌then◌else◌}
use hurra_v.Base.Int.{ℤ, pos}
use hurra_v.Timing.{time_deadline_reached}
use hurra_v.Ferrum.Args.{parse_line}
use hurra_v.Ferrum.Commands.{Ferrum, Effect, Outcome, emit_catch_result}
use hurra_v.Ferrum.Dispatch.{dispatch}

-- `FERRUM_LINE_MAX`
abbrev pub line_max : ℕ
line_max = 128

-- `FERRUM_IDLE_GAP_MS`
abbrev pub idle_gap_ms : ℕ
idle_gap_ms = 25

pub ferrum_init : Ferrum → Ferrum
ferrum_init f = record f {
  line = [];
  overflow = false;
  cb_buttons = false;
  cb_axes = false;
  cb_keys = false;
  catch = record { active = false; deadline = 0; accum_x = pos 0; accum_y = pos 0 };
  last_keys = replicate 6 0;
  last_buttons = 0;
}

unfoldable pub ferrum_reset : Ferrum → Ferrum
ferrum_reset f = record f { line = []; overflow = false }

-- `ferrum_tick`, and the start of `ferrum_feed_byte`.
unfoldable pub ferrum_tick : Ferrum → ℕ → Outcome
ferrum_tick f now =
    let (done, out) = emit_catch_result f in
    if f.catch.active && time_deadline_reached now f.catch.deadline
    then (record done { catch = record done.catch { active = false } }, out)
    else (f, [])

-- A line without a command is dropped.
unfoldable pub run_parsed :
    Option (ℤ × ℤ → ℤ × ℤ) → Ferrum → ℕ → Option (List ℕ × List (List ℕ)) → Outcome
run_parsed filter f now none = (f, [])
run_parsed filter f now (some (name, args)) = dispatch filter f name args now

unfoldable pub dispatch_line : Option (ℤ × ℤ → ℤ × ℤ) → Ferrum → List ℕ → ℕ → Outcome
dispatch_line filter f line now = run_parsed filter f now (parse_line line)

-- A partial line is dropped where the byte comes late.
unfoldable pub after_gap : Ferrum → ℕ → Ferrum
after_gap f now =
    let fresh =
      if ltb 0 (length f.line) && ltb idle_gap_ms ((now + 2 ^ 32 - f.last_byte_ms) % 2 ^ 32)
      then ferrum_reset f
      else f in
    record fresh { last_byte_ms = now }

-- The byte goes into the line, or ends it.
unfoldable pub take_byte : Option (ℤ × ℤ → ℤ × ℤ) → Ferrum → ℕ → ℕ → Outcome
take_byte filter f b now =
    let (done, out) =
      if ltb 0 (length f.line) && not f.overflow
      then dispatch_line filter f f.line now
      else (f, []) in
    if b == b'\r' || b == b'\n'
    then (ferrum_reset done, out)
    else if ltb (length f.line) (line_max - 1)
    then (record f { line = f.line ++ (b ∷ []) }, [])
    else (record f { overflow = true }, [])

-- `now` is what `millis` returns, for as long as the byte is handled.
unfoldable pub ferrum_feed_byte : Option (ℤ × ℤ → ℤ × ℤ) → Ferrum → ℕ → ℕ → Outcome
ferrum_feed_byte filter f b now =
    let (ticked, late) = ferrum_tick f now in
    let (fed, out) = take_byte filter (after_gap ticked now) b now in (fed, late ++ out)

-- `proto_feed`
unfoldable pub feed : Option (ℤ × ℤ → ℤ × ℤ) → Ferrum → List ℕ → ℕ → Outcome
feed filter f [] now = (f, [])
feed filter f (b ∷ s) now =
    let (f1, out) = ferrum_feed_byte filter f b now in
    let (f2, rest) = feed filter f1 s now in (f2, out ++ rest)
