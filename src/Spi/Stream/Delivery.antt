-- ===== src/Spi/Stream/Delivery.antt =====
-- What the streamer delivers is in the stream.
use hurra_v.Base.{ℕ, ◌≡◌, refl, sym, ap, ◌∙◌}
use hurra_v.Base.{true, Option, none, some, List, [], ◌∷◌, ◌++◌, append_assoc, append-nil}
use hurra_v.Base.{length, Bool-cases, inl, inr, ◌==◌, ltb, drop, subst}
use hurra_v.Spi.Frame.{sof, slot_size, unpack, FrameResult, ok, Frame}
use hurra_v.Spi.Stream.{Stream, is_ok, feed, collect}
use hurra_v.Spi.Stream.Spec
use hurra_v.Spi.Stream.Spec.{from_sof}
use hurra_v.Spi.Stream.Refine.{window, IsValid, feed_refines}

-- `Splits rest bytes slots`: the stream `bytes` is some skipped bytes, then the first slot, then
-- skipped bytes, then the second slot, and so on, and at last `rest`; each slot unpacks.
pub data Splits (rest : List ℕ) : List ℕ → List (List ℕ) → Type 0 where
  ends : (skipped bytes : List ℕ) → bytes ≡ skipped ++ rest → Splits rest bytes []
  slot :
      (skipped s tail bytes : List ℕ) (more : List (List ℕ)) (f : Frame)
      → unpack s ≡ ok f
      → bytes ≡ skipped ++ (s ++ tail)
      → Splits rest tail more
      → Splits rest bytes (s ∷ more)

Splits-prepend :
    (pre : List ℕ) {bytes rest : List ℕ} {slots : List (List ℕ)}
    → Splits rest bytes slots
    → Splits rest (pre ++ bytes) slots
Splits-prepend pre {rest = rest} (ends skipped bytes q) =
    ends (pre ++ skipped) (pre ++ bytes) (ap (◌++◌ pre) q ∙ sym (append_assoc pre skipped rest))
Splits-prepend pre (slot skipped s tail bytes more f u q rest) =
    slot (pre ++ skipped) s tail (pre ++ bytes) more f u
      (ap (◌++◌ pre) q ∙ sym (append_assoc pre skipped (s ++ tail))) rest

-- The bytes before the first marker.
before_sof : (xs : List ℕ) → (pre : List ℕ) × (xs ≡ pre ++ from_sof xs)
unfolding from_sof
before_sof [] = ([], refl)
before_sof (x ∷ xs) = elim (Bool-cases (x == sof)) [
  | inl h ↦ ([], rw h)
  | inr h ↦ let rest = before_sof xs in (x ∷ rest.0, rw h (ap (◌∷◌ x) rest.1))
]

is_ok_lem : (r : FrameResult Frame) → is_ok r ≡ true → (f : Frame) × (r ≡ ok f)
unfolding is_ok
is_ok_lem (ok f) h = (f, refl)
is_ok_lem FrameResult.err_sof h = absurd (cc)
is_ok_lem FrameResult.err_len h = absurd (cc)
is_ok_lem FrameResult.err_crc h = absurd (cc)

-- One byte of the list streamer: it skips, it keeps, or it takes the whole window as a slot.
data Move (w : List ℕ) (b : ℕ) (w' : List ℕ) (out : Option (List ℕ)) : Type 0 where
  keep : (pre : List ℕ) → out ≡ none → w ++ (b ∷ []) ≡ pre ++ w' → Move w b w' out
  emit :
      (f : Frame)
      → unpack (w ++ (b ∷ [])) ≡ ok f
      → w' ≡ []
      → out ≡ some (w ++ (b ∷ []))
      → Move w b w' out

drop-one : (w : List ℕ) → (pre : List ℕ) × (w ≡ pre ++ drop 1 w)
drop-one [] = ([], refl)
drop-one (x ∷ w) = (x ∷ [], refl)

close-Move :
    (w : List ℕ) (b : ℕ) → Move w b (Spec.close (w ++ (b ∷ []))).0 (Spec.close (w ++ (b ∷ []))).1
unfolding Spec.close
close-Move w b = elim (Bool-cases (is_ok (unpack (w ++ (b ∷ []))))) [
  | inl t ↦ let u = is_ok_lem (unpack (w ++ (b ∷ []))) t in rw t (emit u.0 u.1 refl refl)
  | inr t ↦
      let one = drop-one (w ++ (b ∷ [])) in
      let more = before_sof (drop 1 (w ++ (b ∷ []))) in
      rw t (
        keep (one.0 ++ more.0) refl (
          one.1
          ∙ (ap (◌++◌ one.0) more.1
              ∙ sym (append_assoc one.0 more.0 (from_sof (drop 1 (w ++ (b ∷ []))))))))
]

push-Move : (w : List ℕ) (b : ℕ) → Move w b (Spec.push w b).0 (Spec.push w b).1
unfolding Spec.push
push-Move [] b = elim (Bool-cases (b == sof)) [
  | inl t ↦ rw t (keep [] refl refl)
  | inr t ↦ rw t (keep (b ∷ []) refl refl)
]
push-Move (x ∷ xs) b = elim (Bool-cases (ltb (length (x ∷ (xs ++ b ∷ []))) slot_size)) [
  | inl t ↦ rw t (keep [] refl refl)
  | inr t ↦ rw t (close-Move (x ∷ xs) b)
]

Move-Splits :
    {w w' rest : List ℕ} {b : ℕ} (bs : List ℕ) {out : Option (List ℕ)} {slots : List (List ℕ)}
    → Move w b w' out
    → Splits rest (w' ++ bs) slots
    → Splits rest (w ++ (b ∷ bs)) (collect out slots)
unfolding collect
Move-Splits {w} {w'} {rest} {b} bs {slots = slots} (keep pre e q) s = rw e (
    subst (λ l. Splits rest l slots)
      (sym (append_assoc pre w' bs)
        ∙ (ap (λ (l : List ℕ). l ++ bs) (sym q) ∙ append_assoc w (b ∷ []) bs))
      (Splits-prepend pre s))
Move-Splits {w} {w'} {rest} {b} bs {slots = slots} (emit f u e q) s = rw q (
    slot [] (w ++ (b ∷ [])) bs (w ++ (b ∷ bs)) slots f u (sym (append_assoc w (b ∷ []) bs))
      (subst (λ l. Splits rest (l ++ bs) slots) e s))

feed-Splits : (bs w : List ℕ) → Splits (Spec.feed w bs).0 (w ++ bs) (Spec.feed w bs).1
unfolding Spec.feed
feed-Splits [] w = ends [] (w ++ []) (append-nil w)
feed-Splits (b ∷ bs) w = Move-Splits bs (push-Move w b) (feed-Splits bs (Spec.push w b).0)

-- From any valid state: the window and the bytes fed are the emitted slots in order, each of which
-- unpacks, with skipped bytes between them, and the new window at the end. So no slot is made up,
-- repeated, reordered or overlapped.
pub feed_sound :
    (st : Stream) (bs : List ℕ)
    → IsValid st
    → Splits (window (feed st bs).0) (window st ++ bs) (feed st bs).1
feed_sound st bs v =
    subst (λ (p : List ℕ × List (List ℕ)). Splits p.0 (window st ++ bs) p.1)
      (sym (feed_refines bs st v).0) (feed-Splits bs (window st))
