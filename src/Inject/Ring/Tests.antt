-- ===== src/Inject/Ring/Tests.antt =====
-- The queue of injected records on concrete records.
use hurra_v.Base.{ℕ, ◌≡◌, refl, arith, [], ◌∷◌, replicate}
use hurra_v.Inject.Ring.{Rec, Link, blank, init, next, make_room, push, drain}
use hurra_v.Inject.Ring.Refine.{IsValid, contents, frames, drain_sends_all}

-- The seven records 1 to 7, with the ring gone round.
abbrev one : ℕ → Rec
one t = record { tag = t; b = replicate 7 t }

abbrev full : Link
full = record {
  slot = one 3 ∷ one 4 ∷ one 5 ∷ one 6 ∷ one 7 ∷ blank ∷ one 1 ∷ one 2 ∷ [];
  head = 6;
  tail = 5;
  drops = 0;
}

full-IsValid : IsValid full
full-IsValid = record { whole = refl; head_in = omega arith; tail_in = omega arith }

drain_sends_all_example :
    IsValid (drain full 253).0
    × (contents (drain full 253).0 ≡ [])
    × ((drain full 253).1 ≡ 4)
    × ((drain full 253).2 ≡ frames (contents full) 253)
drain_sends_all_example = drain_sends_all full 253 full-IsValid (omega arith)

-- A push on the empty queue.
starts_empty :
    (contents (init (replicate 8 blank)) ≡ [])
    × (contents (push (init (replicate 8 blank)) 8 (replicate 7 8)).0 ≡ one 8 ∷ [])
unfolding init push make_room next
starts_empty = (refl, refl)
