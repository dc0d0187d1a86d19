-- ===== src/Kmbox/Tests.antt =====
-- The records of injected input on a concrete move.
use hurra_v.Base.{◌≡◌, refl, arith, [], ◌∷◌, replicate}
use hurra_v.Base.Int.{pos, negsuc}
use hurra_v.Icc.Ring.{blank as no_rec}
use hurra_v.Icc.Ring.Refine.{contents as ring_contents}
use hurra_v.Inject.Ring.{Link}
use hurra_v.Inject.Ring.{blank as no_link_rec}
use hurra_v.Inject.Ring.Refine.{contents as link_contents}
use hurra_v.Kmbox.V3f.{V3f, Call, inject_mouse, record_of, mouse_record}
use hurra_v.Kmbox.V3f.{call as v3f_call}
use hurra_v.Kmbox.Host.{call as host_call}
use hurra_v.Kmbox.Same.{as_link, same_record}

abbrev empty : V3f
empty = record {
  channel = record {
    fifo = record { head = 7; tail = 7; slot = replicate 256 no_rec };
    pub_seq = 0;
    seen_seq = 0;
    msg0 = 0;
    msg1 = 0;
    msg2 = 0;
    msg3 = 0;
  };
  mouse_count = 0;
  kbd_count = 0;
}

abbrev no_link : Link
no_link = record { slot = replicate 8 no_link_rec; head = 3; tail = 3; drops = 0 }

abbrev back : Call
back = inject_mouse (negsuc 299) (pos 5) 1 (negsuc 0)

same_record_example :
    (ring_contents (v3f_call empty back).channel.fifo ≡ record_of back ∷ [])
    × (link_contents (host_call no_link back) ≡ as_link (record_of back) ∷ [])
same_record_example =
    same_record empty no_link back
      (record { whole = refl; head_in = omega arith; tail_in = omega arith })
      (record { whole = refl; head_in = omega arith; tail_in = omega arith }) tt

bytes_of_move :
    as_link (record_of back) ≡ record { tag = 1; b = 212 ∷ 254 ∷ 5 ∷ 0 ∷ 1 ∷ 255 ∷ 0 ∷ [] }
unfolding record_of mouse_record
bytes_of_move = refl
