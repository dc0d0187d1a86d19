-- ===== src/Inject/Ring.antt =====
-- src/inject_link.c: the queue of injected records, which drops its oldest record when it is full.
pub mod Refine
mod Tests
use hurra_v.Base.{ℕ, zero, suc, ◌+◌, ◌-◌, ◌%◌, ◌^◌, Bool, true, false, not, List, [], ◌∷◌, ◌++◌}
use hurra_v.Base.{◌==◌, if◌then◌else◌, get_or, set, take, slice, length}
use hurra_v.Spi.Frame.{FrameResult, ok, err_len, err_sof, err_crc, pack}

-- `INJECT_LINK_DEPTH`
abbrev pub depth : ℕ
depth = 8

-- `TWO_BOARD_TYPE_INJECT`
abbrev pub type_inject : ℕ
type_inject = 6

-- `inject_rec_t`: a tag and seven payload bytes.
pub record Rec : Type 0 where
  pub tag : ℕ
  pub b : List ℕ

abbrev pub blank : Rec
blank = record { tag = 0; b = [] }

-- `s_ring`, `s_head`, `s_tail` and `inject_link_drops`.
pub record Link : Type 0 where
  pub slot : List Rec
  pub head : ℕ
  pub tail : ℕ
  pub drops : ℕ

-- `inject_link_init`, over whatever the slots hold.
pub init : List Rec → Link
init slot = record { slot = slot; head = 0; tail = 0; drops = 0 }

unfoldable pub next : ℕ → ℕ
next i = (i + 1) % depth % 256

-- The queue with room for one record, and whether the oldest was evicted for it.
pub make_room : Link → Link × Bool
make_room l =
    if next l.tail == l.head
    then (record l { head = next l.head; drops = (l.drops + 1) % 2 ^ 32 }, true)
    else (l, false)

-- The new queue, and false where a record was dropped.
pub push : Link → ℕ → List ℕ → Link × Bool
push l tag b =
    let (roomy, dropped) = make_room l in
    (
      record roomy {
        slot = set roomy.slot roomy.tail (record { tag = tag; b = take 7 b });
        tail = next roomy.tail;
      },
      not dropped,
    )

-- The loop of `inject_link_drain` on fuel: the new queue, the next sequence number, and the slots
-- that were exchanged, oldest first. The loop ends where the queue is empty.
pub drain_loop : ℕ → Link → ℕ → Link × ℕ × List (List ℕ)
drain_loop zero l seq = (l, seq, [])
drain_loop (suc fuel) l seq =
    if l.head == l.tail
    then (l, seq, [])
    else let r = get_or l.slot l.head blank in
      let (l', seq', rest) = drain_loop fuel (record l { head = next l.head }) ((seq + 1) % 256) in
      (
        l',
        seq',
        elim (pack type_inject seq (r.tag ∷ take 7 r.b) 8) [ ok tx ↦ tx ∷ rest | _ ↦ rest ],
      )

-- `inject_link_drain`; the queue has seven records at most.
pub drain : Link → ℕ → Link × ℕ × List (List ℕ)
drain l seq = drain_loop depth l seq
