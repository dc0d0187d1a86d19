-- ===== src/Icc/Mailbox/Tests.antt =====
-- The queue and the mailbox on concrete records.
use hurra_v.Base.{get_or-lt, ◌≡◌, refl, arith, true, false, none, some, List, [], ◌∷◌, ◌++◌}
use hurra_v.Base.{map, replicate}
use hurra_v.Icc.Ring.{Rec, Ring, blank, mask}
use hurra_v.Icc.Ring
use hurra_v.Icc.Ring.Refine.{IsValid, contents}
use hurra_v.Icc.Mailbox.{
  Channel, init, send, load, publish, decode, read, ack, word, bytes, pump, recv,
}
use hurra_v.Icc.Mailbox.Codec.{clip, IsRec}
use hurra_v.Icc.Mailbox.Order.{
  System, Reach, start, flight, in_order, here, next, sends, loads, publishes, reads, acks,
}

abbrev blanks : List Rec
blanks = replicate 256 blank

abbrev key : Rec
key = record { tag = 3; b = 4 ∷ 5 ∷ 6 ∷ 7 ∷ 8 ∷ 9 ∷ 10 ∷ replicate 8 0 }

-- A queue whose next record goes to the last slot, with one record in it.
abbrev wrapping : Ring
wrapping = record { head = 255; tail = 254; slot = blanks }

wrapping-IsValid : IsValid wrapping
wrapping-IsValid = record { whole = refl; head_in = omega arith; tail_in = omega arith }

key-IsRec : IsRec key
key-IsRec = record {
  tag_byte = omega arith;
  size = refl;
  byte = λ i. get_or-lt 256 key.b (omega arith) (omega arith) i;
}

blank-IsRec : IsRec blank
blank-IsRec = record {
  tag_byte = omega arith;
  size = refl;
  byte = λ i. get_or-lt 256 blank.b (omega arith) (omega arith) i;
}

-- The record has crossed: the relay core returns it, and both cores are idle again.
crossed : (recv (pump (send (init blanks) key).0).0).1 ≡ some key
unfolding recv pump send init load publish decode read ack word bytes Ring.push Ring.pop
crossed = refl

-- One record crosses while a second one waits.
abbrev s1 : System
s1 = record (start blanks) { chan = (send (start blanks).chan key).0; sent = key ∷ [] }

abbrev s2 : System
s2 = record s1 { chan = (send s1.chan blank).0; sent = key ∷ blank ∷ [] }

abbrev c3 : Channel
c3 = elim (load s2.chan) [ none ↦ s2.chan | some c ↦ c ]

abbrev s3 : System
s3 = record s2 { chan = c3; loaded = true }

abbrev s4 : System
s4 = record s3 { chan = publish c3; loaded = false }

abbrev s5 : System
s5 = record s4 { held = some (key, 1) }

abbrev s6 : System
s6 = record s5 { chan = ack s5.chan 1; held = none; got = key ∷ [] }

run : Reach (start blanks) s6
unfolding recv pump send init load publish decode read ack word bytes Ring.push Ring.pop
run =
    next
      (next
        (next
          (next
            (next (next here (sends key key-IsRec refl refl refl))
              (sends blank blank-IsRec refl refl refl))
            (loads c3 refl refl refl))
          (publishes refl refl))
        (reads key 1 refl refl refl))
      (acks key 1 refl refl)

in_order_example : map clip s6.sent ≡ s6.got ++ (flight s6 ++ map clip (contents s6.chan.fifo))
in_order_example = in_order blanks s6 refl run
