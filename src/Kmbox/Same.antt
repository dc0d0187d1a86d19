-- ===== src/Kmbox/Same.antt =====
-- A call reaches the relay as the same record on one board and on two.
use hurra_v.Base.{
  ℕ, zero, suc, ◌-◌, ◌≡◌, refl, ap, ◌∙◌, List, [], ◌∷◌, ◌++◌, length, drop, take, ◌==◌,
  if◌then◌else◌,
}
use hurra_v.Icc.Ring.{Rec, mask}
use hurra_v.Icc.Ring.{push as ring_push}
use hurra_v.Icc.Ring.Refine.{push-contents}
use hurra_v.Icc.Ring.Refine.{IsValid as IsRing, contents as ring_contents}
use hurra_v.Icc.Mailbox.{Channel, send}
use hurra_v.Inject.Ring.{Link, depth}
use hurra_v.Inject.Ring.{Rec as LinkRec}
use hurra_v.Inject.Ring.Refine.{inject_push_refines}
use hurra_v.Inject.Ring.Refine.{IsValid as IsLink, contents as link_contents}
use hurra_v.Kmbox.V3f.{V3f, Call, record_of, call-send}
use hurra_v.Kmbox.V3f.{call as v3f_call}
use hurra_v.Kmbox.Host.{IsCall, call-push}
use hurra_v.Kmbox.Host.{call as host_call}

-- The record of the link that stands for a record of the channel.
abbrev pub as_link : Rec → LinkRec
as_link r = record { tag = r.tag; b = take 7 r.b }

take_same : (n : ℕ) (b : List ℕ) → take n (take n b) ≡ take n b
take_same zero b = refl
take_same (suc n) [] = refl
take_same (suc n) (x ∷ b) = ap (◌∷◌ x) (take_same n b)

sent :
    (v : V3f) (c : Call) → (v3f_call v c).channel.fifo ≡ (ring_push v.channel.fifo (record_of c)).0
unfolding send
sent v c = ap (λ (q : Channel). q.fifo) (call-send v c)

-- A call of an injection function, on the command core and on the host board, each with a queue that is
-- in order: the command core's queue has the call's record at its end, unless it was full, and the host
-- board's queue has at its end the same tag and the same first seven bytes, for which it dropped its
-- oldest record if it was full.
pub same_record :
    (v : V3f) (l : Link) (c : Call)
    → IsRing v.channel.fifo
    → IsLink l
    → IsCall c
    → (ring_contents (v3f_call v c).channel.fifo ≡ (
        if length (ring_contents v.channel.fifo) == mask
        then ring_contents v.channel.fifo
        else ring_contents v.channel.fifo ++ (record_of c ∷ [])))
      × (link_contents (host_call l c)
          ≡ (if length (link_contents l) == depth - 1
              then drop 1 (link_contents l)
              else link_contents l)
            ++ (as_link (record_of c) ∷ []))
same_record v l c rv lv h =
    let r = record_of c in
    let e = inject_push_refines l r.tag (take 7 r.b) lv in
    let roomy =
      if length (link_contents l) == depth - 1 then drop 1 (link_contents l) else link_contents l in
    (
      ap ring_contents (sent v c) ∙ (push-contents v.channel.fifo r rv).2,
      ap link_contents (call-push l c h)
          ∙ (e.1
              ∙ ap (λ (b : List ℕ). roomy ++ (record { tag = r.tag; b = b } ∷ []))
                  (take_same 7 r.b)),
    )
