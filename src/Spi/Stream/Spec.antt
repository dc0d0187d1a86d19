-- ===== src/Spi/Stream/Spec.antt =====
-- The streamer as it is meant: a window that is a list of the last bytes, at most one slot long.
use hurra_v.Base.{
  ℕ, Option, none, some, List, [], ◌∷◌, ◌++◌, ltb, ◌==◌, if◌then◌else◌, length, drop,
}
use hurra_v.Spi.Frame.{sof, slot_size, unpack}
use hurra_v.Spi.Stream.{is_ok, collect}

-- The list from its first start marker on.
unfoldable pub from_sof : List ℕ → List ℕ
from_sof [] = []
from_sof (x ∷ xs) = if x == sof then x ∷ xs else from_sof xs

-- A full window is a slot, or loses its first byte and starts again at the next marker.
unfoldable pub close : List ℕ → List ℕ × Option (List ℕ)
close w = if is_ok (unpack w) then ([], some w) else (from_sof (drop 1 w), none)

unfoldable pub push : List ℕ → ℕ → List ℕ × Option (List ℕ)
push [] b = if b == sof then (b ∷ [], none) else ([], none)
push (x ∷ xs) b =
    let w = x ∷ (xs ++ b ∷ []) in if ltb (length w) slot_size then (w, none) else close w

unfoldable pub feed : List ℕ → List ℕ → List ℕ × List (List ℕ)
feed w [] = (w, [])
feed w (b ∷ bs) =
    let (w', out) = push w b in let (end, slots) = feed w' bs in (end, collect out slots)
