-- ===== src/Icc/Mailbox.antt =====
-- src/icc.c, `icc_send_to_v5f`, `icc_pump_to_v5f` and `icc_recv_from_v3f`: the one-record mailbox in
-- the four message registers, with the command core's queue in front of it. Each function of the two
-- cores is split where the other core can see a register change: before the publishing store of
-- MSG[2], and before the acknowledging store of MSG[3]. The fences make these stores visible in
-- program order.
pub mod Codec
pub mod Order
mod Tests
use hurra_v.Base.{
  ℕ, ◌+◌, ◌*◌, ◌/◌, ◌%◌, ◌^◌, Bool, true, false, Option, none, some, List, [], ◌∷◌, ◌++◌,
}
use hurra_v.Base.{◌==◌, if◌then◌else◌, not, get_or, map, take, drop, replicate}
use hurra_v.Icc.Ring.{Rec, Ring}
use hurra_v.Icc.Ring

pub record Channel : Type 0 where
  pub fifo : Ring
  pub pub_seq : ℕ
  pub seen_seq : ℕ
  pub msg0 : ℕ
  pub msg1 : ℕ
  pub msg2 : ℕ
  pub msg3 : ℕ

-- `icc_init_v3f`, then `icc_init_v5f`, over whatever the memory holds: the registers, the sequence
-- numbers and the queue. `ICC_TAG_NONE` is 0.
pub init : List Rec → Channel
init slot = record {
  fifo = record { head = 0; tail = 0; slot = map {A = Rec} (λ r. record r { tag = 0 }) slot };
  pub_seq = 0;
  seen_seq = 0;
  msg0 = 0;
  msg1 = 0;
  msg2 = 0;
  msg3 = 0;
}

-- `memcpy` of four bytes to a word, and back: the machine is little-endian.
pub word : List ℕ → ℕ → ℕ
word buf i =
    get_or buf i 0
    + get_or buf (i + 1) 0 * 2 ^ 8
    + get_or buf (i + 2) 0 * 2 ^ 16
    + get_or buf (i + 3) 0 * 2 ^ 24

pub bytes : ℕ → List ℕ
bytes w = w % 256 ∷ w / 2 ^ 8 % 256 ∷ w / 2 ^ 16 % 256 ∷ w / 2 ^ 24 % 256 ∷ []

-- `icc_send_to_v5f`
unfoldable pub send : Channel → Rec → Channel × Bool
send c rec = let (fifo, done) = Ring.push c.fifo rec in (record c { fifo = fifo }, done)

-- `icc_pump_to_v5f` up to the fence: `none` where it returns false.
pub load : Channel → Option Channel
load c =
    if not (c.msg3 == c.pub_seq)
    then none
    else let (fifo, out) = Ring.pop c.fifo in
      elim out [
        | none ↦ none
        | some rec ↦
            let buf : List ℕ = rec.tag ∷ take 7 rec.b in
            some (record c { fifo = fifo; msg0 = word buf 0; msg1 = word buf 4 })
      ]

-- The publishing store.
pub publish : Channel → Channel
publish c = let seq = (c.pub_seq + 1) % 2 ^ 32 in record c { pub_seq = seq; msg2 = seq }

-- The whole function; the doorbell after it only wakes the other core.
pub pump : Channel → Channel × Bool
pump c = elim (load c) [ none ↦ (c, false) | some c' ↦ (publish c', true) ]

-- The record in the message registers.
pub decode : ℕ → ℕ → Rec
decode w0 w1 =
    let buf = bytes w0 ++ bytes w1 in
    record { tag = get_or buf 0 0; b = take 7 (drop 1 buf) ++ replicate 8 0 }

-- `icc_recv_from_v3f` up to the second fence: the record and the sequence number that was read;
-- `none` where it returns false.
pub read : Channel → Option (Rec × ℕ)
read c = if c.msg2 == c.seen_seq then none else some (decode c.msg0 c.msg1, c.msg2)

-- The acknowledging store.
pub ack : Channel → ℕ → Channel
ack c seq = record c { seen_seq = seq; msg3 = seq }

pub recv : Channel → Channel × Option Rec
recv c = elim (read c) [ none ↦ (c, none) | some (rec, seq) ↦ (ack c seq, some rec) ]
