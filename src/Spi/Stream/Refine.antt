-- ===== src/Spi/Stream/Refine.antt =====
-- The array streamer keeps its invariant and does what the list streamer of `Spec` does.
use hurra_v.Base.{ℕ, zero, suc, ◌+◌, ◌-◌, ◌%◌, ◌≤◌, ◌<◌, ◌≡◌, refl, sym, ap, ◌∙◌, ◌≢◌, arith}
use hurra_v.Base.{none, List, [], ◌∷◌, ◌++◌, ltb}
use hurra_v.Base.{if◌then◌else◌, length, get_or, set, slice, copy, take, drop, inl, inr}
use hurra_v.Base.{
  drop-step, drop_all, take-set_end, take-copy, take_all, length-copy, length-slice, length-set,
  length-drop, length-take, get_or-take, ◌⊎◌, length-append, take_zero, get_or-set_self,
  get_or-set_ne,
}
use hurra_v.Spi.Frame.{sof, slot_size}
use hurra_v.Spi.Stream.{Stream, scan, resync, push, feed}
use hurra_v.Spi.Stream.Spec
use hurra_v.Spi.Stream.Spec.{from_sof}

-- The window of a streamer.
abbrev pub window : Stream → List ℕ
window st = take st.len st.buf

pub record IsValid (st : Stream) : Type 0 where
  pub whole : length st.buf ≡ slot_size
  pub room : st.len < slot_size
  pub starts : st.len ≢ 0 → get_or st.buf 0 0 ≡ sof

-- The loop of `resync` stops at the first marker, or past the end where there is none.
scan_lem :
    (buf : List ℕ) (i left : ℕ)
    → i + left ≡ length buf
    → (drop (scan buf i left) buf ≡ from_sof (drop i buf))
      × (i ≤ scan buf i left)
      × (scan buf i left ≤ i + left)
unfolding scan from_sof
scan_lem buf i zero e = (rw (drop_all i buf (omega arith)), omega arith, omega arith)
scan_lem buf i (suc left) e =
    ground (arith, drop-step buf i (i + 1) 0, scan_lem buf (i + 1) left (omega arith))

-- Where it finds none, there is none.
scan_none :
    (buf : List ℕ) (i left j : ℕ)
    → scan buf i left ≡ i + left
    → i ≤ j
    → j < i + left
    → get_or buf j 0 ≢ sof
unfolding scan
scan_none buf i zero j e p q = absurd (omega arith)
scan_none buf i (suc left) j e p q = ground (arith, scan_none buf (i + 1) left j)

from_sof_starts : (xs : List ℕ) → 0 < length (from_sof xs) → get_or (from_sof xs) 0 0 ≡ sof
unfolding from_sof
from_sof_starts [] h = absurd (omega arith)
from_sof_starts (x ∷ xs) h = ground (arith, from_sof_starts xs)

-- A full buffer, on which `resync` drops the first byte and starts again at the next marker.
module _ (buf : List ℕ) (whole : length buf ≡ slot_size) where
  abbrev full : Stream
  full = record { buf = buf; len = slot_size }

  abbrev next : ℕ
  next = scan buf 1 31

  resync-none : next ≡ 32 → resync full ≡ record { buf = buf; len = 0 }
  unfolding resync
  resync-none e = ground (arith, scan_none buf 1 31 31 e (omega arith) (omega arith))

  resync-some :
      next < 32
      → resync full ≡ record { buf = copy buf 0 (slice buf next (32 - next)); len = 32 - next }
  unfolding resync
  resync-some h = let n : (32 - next) % 256 ≡ 32 - next = omega arith in rw n (ground arith)

  window-resync : window (resync full) ≡ from_sof (drop 1 buf)
  window-resync =
      let found = scan_lem buf 1 31 (omega arith) in
      elim (place found.2) [
        | inl h ↦ rw (resync-some h) (
            take-copy buf 0 (32 - next) (slice buf next (32 - next))
              (omega (arith, length-slice buf next (32 - next) (omega arith))) (omega arith)
            ∙ (take_all (32 - next) (drop next buf) (omega (arith, length-drop next buf))
                ∙ found.0))
        | inr h ↦ rw (resync-none h) (sym (drop_all next buf (omega arith)) ∙ found.0)
      ]
    where
      place : next ≤ 1 + 31 → (next < 32) ⊎ (next ≡ 32)
      place h = ground arith

  resync_sizes : (length (resync full).buf ≡ slot_size) × ((resync full).len < slot_size)
  resync_sizes =
      let found = scan_lem buf 1 31 (omega arith) in
      elim (place found.2) [
        | inl h ↦ rw (resync-some h) (
          length-copy buf 0 (slice buf next (32 - next))
                (omega (arith, length-slice buf next (32 - next) (omega arith)))
              ∙ whole,
          omega (arith, found.1),
        )
        | inr h ↦ rw (resync-none h) (whole, omega arith)
      ]
    where
      place : next ≤ 1 + 31 → (next < 32) ⊎ (next ≡ 32)
      place h = ground arith

  resync-IsValid : IsValid (resync full)
  resync-IsValid = record {
    whole = resync_sizes.0;
    room = resync_sizes.1;
    starts = λ ne.
        let there : 0 < (resync full).len = omega (arith, ne) in
        let first = get_or-take (resync full).len 0 0 (resync full).buf there in
        let size = length-take (resync full).len (resync full).buf in
        let filled : 0 < length (from_sof (drop 1 buf)) =
          omega (arith, ap length window-resync, size, resync_sizes.0, resync_sizes.1) in
        sym first
        ∙ (ap (λ (w : List ℕ). get_or w 0 0) window-resync ∙ from_sof_starts (drop 1 buf) filled);
  }

-- On a window that is not empty, `Spec.push` appends and closes a full window.
pub Spec_push :
    (w : List ℕ) (b : ℕ)
    → 0 < length w
    → Spec.push w b ≡ (
        if ltb (length (w ++ (b ∷ []))) slot_size
        then (w ++ (b ∷ []), none)
        else Spec.close (w ++ (b ∷ [])))
unfolding Spec.push
Spec_push [] b h = absurd (omega arith)
Spec_push (x ∷ xs) b h = refl

module _ (st : Stream) (b : ℕ) (v : IsValid st) where
  abbrev grown : List ℕ
  grown = set st.buf st.len b

  abbrev Goal : Type 0
  Goal = ((window (push st b).0, (push st b).1) ≡ Spec.push (window st) b) × IsValid (push st b).0

  window-grown : take (st.len + 1) grown ≡ window st ++ (b ∷ [])
  window-grown = take-set_end st.len (st.len + 1) st.buf b refl (omega arith)

  length-grown : length grown ≡ slot_size
  length-grown = length-set st.buf st.len b ∙ v.whole

  length-window : length (window st) ≡ st.len
  length-window = omega (arith, length-take st.len st.buf, v.whole, v.room)

  window_grows : length (window st ++ (b ∷ [])) ≡ st.len + 1
  window_grows = omega (arith, length-append (window st) (b ∷ []), length-window)

  -- The window is empty: wait for a marker.
  push_idle : st.len ≡ 0 → Goal
  unfolding push Spec.push
  push_idle e = ground (
    arith,
    take_zero st.buf st.len e,
    take-set_end 0 1 st.buf b,
    get_or-set_self st.buf 0 b 0,
    length-set st.buf 0 b,
  )

  -- The window stays short of a slot.
  push_short : st.len ≢ 0 → st.len + 1 < slot_size → Goal
  unfolding push
  push_short ne h =
      let spec = Spec_push (window st) b (omega (arith, ne, length-window)) in
      let size : (st.len + 1) % 256 ≡ st.len + 1 = omega arith in
      (
        ground (arith, spec, size, window-grown, window_grows),
        ground (arith, size, length-grown, get_or-set_ne st.buf st.len 0 b 0),
      )

  -- The window is full.
  push_full : st.len + 1 ≡ slot_size → Goal
  unfolding push Spec.close
  push_full e =
      let spec = Spec_push (window st) b (omega (arith, length-window)) in
      let size : (st.len + 1) % 256 ≡ 32 = omega arith in
      let all = take_all 32 grown (omega (arith, length-grown)) in
      let same : grown ≡ window st ++ (b ∷ []) =
        sym all ∙ (ap (λ (n : ℕ). take n grown) (sym e) ∙ window-grown) in
      (
        ground (arith, spec, size, all, same, window_grows, window-resync grown length-grown),
        ground (arith, size, length-grown, resync-IsValid grown length-grown),
      )

  goal : Goal
  goal = elim (place st.len v.room) [
    | inl e ↦ push_idle e
    | inr (inl h) ↦ push_short h.0 h.1
    | inr (inr e) ↦ push_full e
  ]
    where
      place :
          (n : ℕ)
          → n < slot_size
          → (n ≡ 0) ⊎ (((n ≢ 0) × (n + 1 < slot_size)) ⊎ (n + 1 ≡ slot_size))
      place n h = ground arith

  -- One byte: the array streamer keeps its invariant, and its window and what it emits are those
  -- of the list streamer.
  pub push_refines :
      ((window (push st b).0, (push st b).1) ≡ Spec.push (window st) b) × IsValid (push st b).0
  push_refines = goal

-- Any run of bytes.
pub feed_refines :
    (bs : List ℕ) (st : Stream)
    → IsValid st
    → ((window (feed st bs).0, (feed st bs).1) ≡ Spec.feed (window st) bs) × IsValid (feed st bs).0
unfolding feed Spec.feed
feed_refines [] st v = (refl, v)
feed_refines (b ∷ bs) st v =
    let one = push_refines st b v in
    let rest = feed_refines bs (push st b).0 one.1 in (rw (← one.0, ← rest.0), rest.1)
