-- ===== src/Spi/Stream/InStep.antt =====
-- A stream that the streamer reads in step: noise without a start marker, then whole slots.
use hurra_v.Base.{ℕ, ◌+◌, ◌<◌, ◌≡◌, refl, ap, ◌∙◌, ◌≢◌, arith}
use hurra_v.Base.{none, some, List, [], ◌∷◌, ◌++◌, append_assoc, length, length-append}
use hurra_v.Base.{==_iff, true, false, ◌==◌, take_zero, length-take}
use hurra_v.Spi.Frame.{sof, slot_size, unpack, ok, Frame}
use hurra_v.Spi.Frame.Corruption.{unpack-Accepted}
use hurra_v.Spi.Stream.{Stream, is_ok, feed, collect}
use hurra_v.Spi.Stream.Spec
use hurra_v.Spi.Stream.Refine.{window, IsValid, feed_refines, Spec_push}

-- A whole slot that `unpack` accepts.
pub record IsSlot (s : List ℕ) : Type 0 where
  pub frame : Frame
  pub whole : length s ≡ slot_size
  pub accepted : unpack s ≡ ok frame

push_keep :
    (w : List ℕ) (b : ℕ)
    → 0 < length w
    → length w + 1 < slot_size
    → Spec.push w b ≡ (w ++ (b ∷ []), none)
push_keep w b p q = ground (arith, Spec_push w b p, length-append w (b ∷ []))

push_emit :
    (w : List ℕ) (b : ℕ) (f : Frame)
    → 0 < length w
    → length w + 1 ≡ slot_size
    → unpack (w ++ (b ∷ [])) ≡ ok f
    → Spec.push w b ≡ ([], some (w ++ (b ∷ [])))
unfolding Spec.close is_ok
push_emit w b f p q u = ground (arith, Spec_push w b p, length-append w (b ∷ []), u)

-- From a window that is the start of a slot, the rest of the slot brings it out.
feed_rest :
    (w r bs : List ℕ) (f : Frame)
    → 0 < length w
    → 0 < length r
    → length w + length r ≡ slot_size
    → unpack (w ++ r) ≡ ok f
    → Spec.feed w (r ++ bs) ≡ ((Spec.feed [] bs).0, (w ++ r) ∷ (Spec.feed [] bs).1)
unfolding Spec.feed collect
feed_rest w [] bs f p q e u = absurd (omega arith)
feed_rest w (b ∷ []) bs f p q e u = rw (push_emit w b f p e u)
feed_rest w (b ∷ c ∷ r) bs f p q e u =
    let joined = append_assoc w (b ∷ []) (c ∷ r) in
    let grown = length-append w (b ∷ []) in
    let one = push_keep w b p (omega arith) in
    let rest : Spec.feed (w ++ (b ∷ [])) (c ∷ r ++ bs)
        ≡ ((Spec.feed [] bs).0, ((w ++ (b ∷ [])) ++ (c ∷ r)) ∷ (Spec.feed [] bs).1) =
      feed_rest (w ++ (b ∷ [])) (c ∷ r) bs f (omega (arith, grown)) (omega arith)
        (omega (arith, grown)) (ap unpack joined ∙ u) in
    rw one (
      rest
      ∙ ap
          (λ (l : List ℕ).
            let p : List ℕ × List (List ℕ) = ((Spec.feed [] bs).0, l ∷ (Spec.feed [] bs).1) in p)
          joined)

-- A whole slot that starts at an empty window comes out, and leaves the window empty.
feed_slot :
    (s bs : List ℕ)
    → IsSlot s
    → Spec.feed [] (s ++ bs) ≡ ((Spec.feed [] bs).0, s ∷ (Spec.feed [] bs).1)
unfolding Spec.feed collect Spec.push
feed_slot [] bs v = absurd (omega (arith, v.whole))
feed_slot (x ∷ s) bs v =
    let marker : (x == sof) ≡ true =
      (==_iff x sof).1 (unpack-Accepted (x ∷ s) v.frame v.accepted).starts in
    rw marker (
      feed_rest (x ∷ []) s bs v.frame (omega arith) (omega (arith, v.whole))
        (omega (arith, v.whole)) v.accepted)

abbrev pub Unmarked : List ℕ → Type 0
Unmarked [] = Unit
Unmarked (x ∷ xs) = (x ≢ sof) × Unmarked xs

abbrev pub AllSlots : List (List ℕ) → Type 0
AllSlots [] = Unit
AllSlots (s ∷ ss) = IsSlot s × AllSlots ss

-- The bytes of a run of slots.
abbrev pub concat : List (List ℕ) → List ℕ
concat [] = []
concat (s ∷ ss) = s ++ concat ss

feed_noise : (noise bs : List ℕ) → Unmarked noise → Spec.feed [] (noise ++ bs) ≡ Spec.feed [] bs
unfolding Spec.feed collect Spec.push
feed_noise [] bs u = refl
feed_noise (x ∷ noise) bs u =
    let other : (x == sof) ≡ false = ground (arith, u.0) in rw other (feed_noise noise bs u.1)

feed_slots : (ss : List (List ℕ)) → AllSlots ss → Spec.feed [] (concat ss) ≡ ([], ss)
unfolding Spec.feed
feed_slots [] v = refl
feed_slots (s ∷ ss) v = feed_slot s (concat ss) v.0 ∙ rw (feed_slots ss v.1)

-- A synchronised receiver: from an empty window, noise without a start marker followed by whole
-- valid slots gives exactly those slots, in order, and ends with an empty window.
pub feed_in_step :
    (st : Stream) (noise : List ℕ) (ss : List (List ℕ))
    → IsValid st
    → st.len ≡ 0
    → Unmarked noise
    → AllSlots ss
    → ((feed st (noise ++ concat ss)).1 ≡ ss) × ((feed st (noise ++ concat ss)).0.len ≡ 0)
feed_in_step st noise ss v e u a =
    let fed = feed_refines (noise ++ concat ss) st v in
    let expected : Spec.feed (window st) (noise ++ concat ss) ≡ ([], ss) =
      rw (take_zero st.buf st.len e) (feed_noise noise (concat ss) u ∙ feed_slots ss a) in
    let both = fed.0 ∙ expected in
    let size =
      length-take (feed st (noise ++ concat ss)).0.len (feed st (noise ++ concat ss)).0.buf in
    let empty = ap (λ (p : List ℕ × List (List ℕ)). length p.0) both in
    (
      ap (λ (p : List ℕ × List (List ℕ)). p.1) both,
      omega (arith, empty, size, fed.1.whole, fed.1.room),
    )
