-- ===== src/Ferrum/Line/Room.antt =====
-- The line buffer is never overrun.
use hurra_v.Base.{ℕ, ◌-◌, ◌≤◌, inl, inr, arith, Bool, true, false, ◌&&◌, ◌||◌, Option, Bool-cases}
use hurra_v.Base.{List, [], ◌∷◌, length, length-append, ltb, ◌==◌, if◌then◌else◌}
use hurra_v.Base.Int.{ℤ}
use hurra_v.Timing.{time_deadline_reached}
use hurra_v.Ferrum.Commands.{Ferrum, Outcome, emit_catch_result}
use hurra_v.Ferrum.Line.{
  ferrum_reset, ferrum_tick, after_gap, take_byte, ferrum_feed_byte, feed, line_max,
}

-- There is room for the zero behind the line.
abbrev pub HasRoom : Ferrum → Type 0
HasRoom f = length f.line ≤ line_max - 1

choose : {A : Type 0} (P : A → Type 0) (b : Bool) (x y : A) → P x → P y → P (if b then x else y)
choose P true x y p q = p
choose P false x y p q = q

tick-HasRoom : (f : Ferrum) (now : ℕ) → HasRoom f → HasRoom (ferrum_tick f now).0
unfolding ferrum_tick emit_catch_result
tick-HasRoom f now h =
    choose (λ (q : Outcome). HasRoom q.0)
      (f.catch.active && time_deadline_reached now f.catch.deadline) _ _ h h

gap-HasRoom : (f : Ferrum) (now : ℕ) → HasRoom f → HasRoom (after_gap f now)
unfolding after_gap ferrum_reset
gap-HasRoom f now h = choose HasRoom _ (ferrum_reset f) f (omega arith) h

take_byte-HasRoom :
    (filter : Option (ℤ × ℤ → ℤ × ℤ)) (f : Ferrum) (b now : ℕ)
    → HasRoom f
    → HasRoom (take_byte filter f b now).0
unfolding take_byte ferrum_reset
take_byte-HasRoom filter f b now h = elim (Bool-cases (b == b'\r' || b == b'\n')) [
  | inl e ↦ rw e (omega arith)
  | inr e ↦ elim (Bool-cases (ltb (length f.line) (line_max - 1))) [
    | inl d ↦ rw (e, d) (ground (arith, d, length-append f.line (b ∷ [])))
    | inr d ↦ rw (e, d) h
  ]
]

-- Whatever bytes come in, and whatever they make the commands do, the line keeps to the 127 bytes that
-- the buffer has for it.
pub feed-HasRoom :
    (filter : Option (ℤ × ℤ → ℤ × ℤ)) (f : Ferrum) (s : List ℕ) (now : ℕ)
    → HasRoom f
    → HasRoom (feed filter f s now).0
unfolding feed ferrum_feed_byte
feed-HasRoom filter f [] now h = h
feed-HasRoom filter f (b ∷ s) now h =
    feed-HasRoom filter (ferrum_feed_byte filter f b now).0 s now (
      take_byte-HasRoom filter (after_gap (ferrum_tick f now).0 now) b now
        (gap-HasRoom (ferrum_tick f now).0 now (tick-HasRoom f now h)))
