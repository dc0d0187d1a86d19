-- ===== src/Spi/Stream/Tests.antt =====
-- A run of the streamer, and its theorems at concrete inputs.
use hurra_v.Base.{ℕ, ◌≡◌, refl, arith, List, [], ◌∷◌, ◌++◌, replicate}
use hurra_v.Spi.Frame.RoundTrip.{packed, unpack-pack}
use hurra_v.Spi.Stream.{Stream, push, feed}
use hurra_v.Spi.Stream.Spec
use hurra_v.Spi.Stream.Refine.{window, IsValid, push_refines, feed_refines}
use hurra_v.Spi.Stream.Delivery.{Splits, feed_sound}
use hurra_v.Spi.Stream.InStep.{IsSlot, concat, feed_in_step}

-- A streamer in the middle of a frame that was cut off after its header.
abbrev cut : Stream
cut = record { buf = 0x68 ∷ 2 ∷ 7 ∷ 3 ∷ replicate 28 0; len = 4 }

abbrev idle : Stream
idle = record { buf = replicate 32 0; len = 0 }

abbrev first : List ℕ
first = packed 2 7 (1 ∷ 2 ∷ 3 ∷ []) 3

abbrev second : List ℕ
second = packed 2 8 (4 ∷ []) 1

cut-IsValid : IsValid cut
cut-IsValid = record { whole = refl; room = omega arith; starts = λ ne. refl }

idle-IsValid : IsValid idle
idle-IsValid = record { whole = refl; room = omega arith; starts = λ ne. absurd (ne refl) }

first-IsSlot : IsSlot first
first-IsSlot =
    let r = unpack-pack 2 7 (1 ∷ 2 ∷ 3 ∷ []) 3 (omega arith) (omega arith) in
    record { frame = r.2; whole = r.1; accepted = r.3 }

second-IsSlot : IsSlot second
second-IsSlot =
    let r = unpack-pack 2 8 (4 ∷ []) 1 (omega arith) (omega arith) in
    record { frame = r.2; whole = r.1; accepted = r.3 }

push_refines_example :
    ((window (push cut 1).0, (push cut 1).1) ≡ Spec.push (0x68 ∷ 2 ∷ 7 ∷ 3 ∷ []) 1)
    × IsValid (push cut 1).0
push_refines_example = push_refines cut 1 cut-IsValid

feed_refines_example :
    ((window (feed cut (0 ∷ 0x68 ∷ [])).0, (feed cut (0 ∷ 0x68 ∷ [])).1)
      ≡ Spec.feed (0x68 ∷ 2 ∷ 7 ∷ 3 ∷ []) (0 ∷ 0x68 ∷ []))
    × IsValid (feed cut (0 ∷ 0x68 ∷ [])).0
feed_refines_example = feed_refines (0 ∷ 0x68 ∷ []) cut cut-IsValid

feed_sound_example :
    Splits (window (feed cut first).0) ((0x68 ∷ 2 ∷ 7 ∷ 3 ∷ []) ++ first) (feed cut first).1
feed_sound_example = feed_sound cut first cut-IsValid

feed_in_step_example :
    ((feed idle ((9 ∷ 5 ∷ []) ++ concat (first ∷ second ∷ []))).1 ≡ first ∷ second ∷ [])
    × ((feed idle ((9 ∷ 5 ∷ []) ++ concat (first ∷ second ∷ []))).0.len ≡ 0)
feed_in_step_example =
    feed_in_step idle (9 ∷ 5 ∷ []) (first ∷ second ∷ []) idle-IsValid refl (omega arith)
      (first-IsSlot, (second-IsSlot, tt))
