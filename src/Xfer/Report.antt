-- ===== src/Xfer/Report.antt =====
-- src/report_xfer.c and src/report_xfer.h: one HID report in fragments, and its reassembly.
pub mod Bounds
pub mod Fragment
pub mod Padding
pub mod Pass
mod Tests
use hurra_v.Base.{ℕ, ◌+◌, ◌-◌, ◌*◌, ◌/◌, ◌%◌, ◌||◌, Option, none, some}
use hurra_v.Base.{List, [], ◌∷◌, ltb, leb, ◌==◌, if◌then◌else◌, not, get_or, slice, copy, length}
use hurra_v.Xfer.Outcome.{Outcome, in_progress, complete, restart}

abbrev pub max_report : ℕ
max_report = 64

abbrev pub header_size : ℕ
header_size = 4

abbrev pub data_per_fragment : ℕ
data_per_fragment = 22

pub record Ctx : Type 0 where
  pub report : List ℕ
  pub total_len : ℕ
  pub bytes_received : ℕ
  pub expected_index : ℕ
  pub dev_ep : ℕ
  pub iface_protocol : ℕ
  pub active : ℕ

unfoldable pub fragment_count : ℕ → ℕ
fragment_count report_len =
    if report_len == 0 || ltb max_report report_len
    then 0
    else (report_len + data_per_fragment - 1) / data_per_fragment % 256

-- The payload that is written to `out`; its length is what the function returns, and `none` is the
-- return of 0, where nothing is written.
pub pack_fragment : List ℕ → ℕ → ℕ → ℕ → ℕ → Option (List ℕ)
pack_fragment report report_len dev_ep iface_protocol fragment_index =
    let count = fragment_count report_len in
    if count == 0 || dev_ep == 0 || ltb 15 dev_ep || leb count fragment_index
    then none
    else let offset = fragment_index * data_per_fragment % 0x10000 in
      let rest = (report_len + 0x10000 - offset) % 0x10000 in
      let data_len = if ltb data_per_fragment rest then data_per_fragment else rest in
      some
        (fragment_index ∷ report_len % 256 ∷ dev_ep ∷ iface_protocol ∷ slice report offset data_len)

-- What the sender hands to the frame codec for a fragment: nothing past the last one.
pub sent : List ℕ → ℕ → ℕ → ℕ → List ℕ
sent report ep proto k = elim (pack_fragment report (length report) ep proto k) [
  | none ↦ []
  | some p ↦ p
]

unfoldable pub reset : Ctx → Ctx
reset ctx = record ctx {
  total_len = 0;
  bytes_received = 0;
  expected_index = 0;
  dev_ep = 0;
  iface_protocol = 0;
  active = 0;
}

pub reject : Ctx → Ctx × Outcome
reject ctx = (reset ctx, restart)

-- The copy and the bookkeeping once the fragment has been taken.
pub store : Ctx → List ℕ → ℕ → ℕ → ℕ → Ctx × Outcome
store ctx payload index offset data_len =
    let received = (offset + data_len) % 256 in
    let stored : Ctx = record ctx {
      report = copy ctx.report offset (slice payload header_size data_len);
      bytes_received = received;
      expected_index = (index + 1) % 256;
    } in
    if received == ctx.total_len
    then (record stored { active = 0 }, complete)
    else (stored, in_progress)

-- What the first fragment of a report sets before it is stored.
pub begin : Ctx → ℕ → ℕ → ℕ → Ctx
begin ctx total_len dev_ep iface_protocol = record ctx {
  total_len = total_len;
  bytes_received = 0;
  expected_index = 0;
  dev_ep = dev_ep;
  iface_protocol = iface_protocol;
  active = 1;
}

pub accept : Ctx → List ℕ → ℕ → Ctx × Outcome
accept ctx payload payload_len =
    if ltb payload_len (header_size + 1)
    then reject ctx
    else let index = get_or payload 0 0 in
      let total_len = get_or payload 1 0 in
      let dev_ep = get_or payload 2 0 in
      let iface_protocol = get_or payload 3 0 in
      let data_len = (payload_len - header_size) % 256 in
      if total_len == 0 || ltb max_report total_len || dev_ep == 0 || ltb 15 dev_ep
      then reject ctx
      else let offset = index * data_per_fragment % 0x10000 in
        if leb total_len offset
        then reject ctx
        else let rest = (total_len - offset) % 256 in
          let expected_data = if ltb data_per_fragment rest then data_per_fragment else rest in
          if not (data_len == expected_data)
          then reject ctx
          else if index == 0
          then store (begin ctx total_len dev_ep iface_protocol) payload index offset data_len
          else if ctx.active == 0
              || not (index == ctx.expected_index)
              || not (total_len == ctx.total_len)
              || not (dev_ep == ctx.dev_ep)
              || not (iface_protocol == ctx.iface_protocol)
          then reject ctx
          else store ctx payload index offset data_len

-- A receiver that is given each payload in turn, with what each call returns.
pub accept_all : Ctx → List (List ℕ) → Ctx × List Outcome
accept_all ctx [] = (ctx, [])
accept_all ctx (p ∷ ps) =
    let (ctx', r) = accept ctx p (length p) in let (end, rs) = accept_all ctx' ps in (end, r ∷ rs)
