-- ===== src/Ferrum/Line/Feeds.antt =====
-- Bytes that are no line end are collected, and a line end runs the line.
use hurra_v.Base.{
  ℕ, ◌+◌, ◌-◌, ◌%◌, ◌^◌, ◌≤◌, ◌<◌, ◌≡◌, refl, ap, sym, ◌∙◌, arith, Bool, true, false, ◌&&◌, ◌||◌,
  Option,
}
use hurra_v.Base.{
  List, [], ◌∷◌, ◌++◌, append_assoc, append-nil, length, length-append, ltb, ◌==◌, if◌then◌else◌,
}
use hurra_v.Base.Int.{ℤ}
use hurra_v.Timing.{time_deadline_reached}
use hurra_v.Ferrum.Commands.{Ferrum, Effect, Outcome}
use hurra_v.Ferrum.Line.{
  ferrum_reset, ferrum_tick, dispatch_line, after_gap, take_byte, ferrum_feed_byte, feed, line_max,
  idle_gap_ms,
}

pub if_true : {A : Type 0} (b : Bool) (x y : A) → b ≡ true → (if b then x else y) ≡ x
if_true b x y e = rw e refl

pub if_false : {A : Type 0} (b : Bool) (x y : A) → b ≡ false → (if b then x else y) ≡ y
if_false b x y e = rw e refl

-- With a line in the buffer, whose last byte came at `now`.
abbrev pub at : Ferrum → List ℕ → Bool → ℕ → Ferrum
at f l o now = record f { line = l; overflow = o; last_byte_ms = now }

tick_quiet : (f : Ferrum) (now : ℕ) → f.catch.active ≡ false → ferrum_tick f now ≡ (f, [])
unfolding ferrum_tick
tick_quiet f now e =
    if_false (f.catch.active && time_deadline_reached now f.catch.deadline) _ (f, [])
      (ground (arith, e))

same_time :
    (l : List ℕ) (now : ℕ)
    → (ltb 0 (length l) && ltb idle_gap_ms ((now + 2 ^ 32 - now) % 2 ^ 32)) ≡ false
same_time l now = ground arith

gap_none :
    (f : Ferrum) (l : List ℕ) (o : Bool) (now : ℕ) → after_gap (at f l o now) now ≡ at f l o now
unfolding after_gap
gap_none f l o now =
    ap (λ (q : Ferrum). record q { last_byte_ms = now })
      (if_false _ (ferrum_reset (at f l o now)) (at f l o now) (same_time l now))

gap_fresh : (f : Ferrum) (now : ℕ) → after_gap (ferrum_reset f) now ≡ at f [] false now
unfolding after_gap ferrum_reset
gap_fresh f now = refl

-- A byte without a catch that is due.
byte_lem :
    (filter : Option (ℤ × ℤ → ℤ × ℤ)) (f g : Ferrum) (b now : ℕ)
    → f.catch.active ≡ false
    → after_gap f now ≡ g
    → ferrum_feed_byte filter f b now ≡ take_byte filter g b now
unfolding ferrum_feed_byte
byte_lem filter f g b now e h =
    ap
      (λ (q : Outcome). (
        (take_byte filter (after_gap q.0 now) b now).0,
        q.1 ++ (take_byte filter (after_gap q.0 now) b now).1,
      ))
      (tick_quiet f now e)
    ∙ ap (λ (q : Ferrum). take_byte filter q b now) h

feed_cons :
    (filter : Option (ℤ × ℤ → ℤ × ℤ)) (f g h : Ferrum) (b : ℕ) (s : List ℕ) (now : ℕ)
    (out rest : List Effect)
    → ferrum_feed_byte filter f b now ≡ (g, out)
    → feed filter g s now ≡ (h, rest)
    → feed filter f (b ∷ s) now ≡ (h, out ++ rest)
unfolding feed
feed_cons filter f g h b s now out rest e d =
    ap (λ (q : Outcome). ((feed filter q.0 s now).0, q.1 ++ (feed filter q.0 s now).1)) e
    ∙ ap (λ (q : Outcome). (q.0, out ++ q.1)) d

abbrev pub is_end : ℕ → Bool
is_end b = b == b'\r' || b == b'\n'

-- A list of bytes that end no line.
pub data IsLine : List ℕ → Type 0 where
  line_end : IsLine []
  line_char : (c : ℕ) (s : List ℕ) → is_end c ≡ false → IsLine s → IsLine (c ∷ s)

keep_lem :
    (filter : Option (ℤ × ℤ → ℤ × ℤ)) (f : Ferrum) (l : List ℕ) (b now : ℕ)
    → is_end b ≡ false
    → length l < 127
    → take_byte filter (at f l false now) b now ≡ (at f (l ++ (b ∷ [])) false now, [])
unfolding take_byte
keep_lem filter f l b now e h =
    if_false (is_end b) _ _ e ∙ if_true (ltb (length l) (line_max - 1)) _ _ (ground (arith, h))

feed_kept :
    (filter : Option (ℤ × ℤ → ℤ × ℤ)) (f : Ferrum) (l s : List ℕ) (now : ℕ)
    → f.catch.active ≡ false
    → IsLine s
    → length l + length s ≤ 127
    → feed filter (at f l false now) s now ≡ (at f (l ++ s) false now, [])
unfolding feed
feed_kept filter f l [] now e line_end h =
    ap (λ (q : List ℕ). (at f q false now, [])) (sym (append-nil l))
feed_kept filter f l (b ∷ s) now e (line_char _ _ c t) h =
    feed_cons filter (at f l false now) (at f (l ++ (b ∷ [])) false now)
      (at f ((l ++ (b ∷ [])) ++ s) false now) b s now [] []
      (byte_lem filter (at f l false now) (at f l false now) b now e (gap_none f l false now)
        ∙ keep_lem filter f l b now c (omega (arith, h)))
      (feed_kept filter f (l ++ (b ∷ [])) s now e t (omega (arith, h, length-append l (b ∷ []))))
    ∙ ap (λ (q : List ℕ). (at f q false now, [])) (append_assoc l (b ∷ []) s)

-- What a line end does with the line in the buffer.
ends :
    (filter : Option (ℤ × ℤ → ℤ × ℤ)) (f : Ferrum) (c : ℕ) (l : List ℕ) (now : ℕ)
    → take_byte filter (at f (c ∷ l) false now) b'\n' now ≡ (
      ferrum_reset (dispatch_line filter (at f (c ∷ l) false now) (c ∷ l) now).0,
      (dispatch_line filter (at f (c ∷ l) false now) (c ∷ l) now).1,
    )
unfolding take_byte
ends filter f c l now =
    ap (λ (q : Outcome). (ferrum_reset q.0, q.1))
      (if_true (ltb 0 (length (c ∷ l)) && true)
        (dispatch_line filter (at f (c ∷ l) false now) (c ∷ l) now) (at f (c ∷ l) false now, [])
        (ground arith))

-- The second part goes on where the first part stopped.
abbrev on_from : Option (ℤ × ℤ → ℤ × ℤ) → List ℕ → ℕ → Outcome → Outcome
on_from filter t now q = ((feed filter q.0 t now).0, q.1 ++ (feed filter q.0 t now).1)

feed_append :
    (filter : Option (ℤ × ℤ → ℤ × ℤ)) (f : Ferrum) (s t : List ℕ) (now : ℕ)
    → feed filter f (s ++ t) now ≡ on_from filter t now (feed filter f s now)
unfolding feed
feed_append filter f [] t now = refl
feed_append filter f (b ∷ s) t now =
    let step = ferrum_feed_byte filter f b now in
    let first = feed filter step.0 s now in
    ap (λ (q : Outcome). (q.0, step.1 ++ q.1)) (feed_append filter step.0 s t now)
    ∙ ap (λ (q : List Effect). ((feed filter first.0 t now).0, q))
        (sym (append_assoc step.1 first.1 (feed filter first.0 t now).1))

feed_one :
    (filter : Option (ℤ × ℤ → ℤ × ℤ)) (f g : Ferrum) (b now : ℕ) (out : List Effect)
    → ferrum_feed_byte filter f b now ≡ (g, out)
    → feed filter f (b ∷ []) now ≡ (g, out)
unfolding feed
feed_one filter f g b now out e =
    feed_cons filter f g g b [] now out [] e refl
    ∙ ap (λ (q : List Effect). (g, q)) (append-nil out)

-- From an empty line buffer it does not matter when the last byte came.
feed_fresh :
    (filter : Option (ℤ × ℤ → ℤ × ℤ)) (f : Ferrum) (c : ℕ) (s : List ℕ) (now : ℕ)
    → f.catch.active ≡ false
    → feed filter (ferrum_reset f) (c ∷ s) now ≡ feed filter (at f [] false now) (c ∷ s) now
unfolding feed ferrum_reset
feed_fresh filter f c s now e =
    ap (λ (q : Outcome). ((feed filter q.0 s now).0, q.1 ++ (feed filter q.0 s now).1))
      (byte_lem filter (ferrum_reset f) (at f [] false now) c now e (gap_fresh f now)
        ∙ sym (
            byte_lem filter (at f [] false now) (at f [] false now) c now e
              (gap_none f [] false now)))

-- A line of at most 127 bytes that comes at once, with its end, on an empty buffer, while no catch of
-- motion is open: it is dispatched as it came, and the buffer is empty again.
pub feed_line :
    (filter : Option (ℤ × ℤ → ℤ × ℤ)) (f : Ferrum) (c : ℕ) (s : List ℕ) (now : ℕ)
    → f.catch.active ≡ false
    → IsLine (c ∷ s)
    → length (c ∷ s) ≤ 127
    → feed filter (ferrum_reset f) ((c ∷ s) ++ (b'\n' ∷ [])) now ≡ (
      ferrum_reset (dispatch_line filter (at f (c ∷ s) false now) (c ∷ s) now).0,
      (dispatch_line filter (at f (c ∷ s) false now) (c ∷ s) now).1,
    )
feed_line filter f c s now e l h =
    let full = at f (c ∷ s) false now in
    let done = dispatch_line filter full (c ∷ s) now in
    feed_fresh filter f c (s ++ (b'\n' ∷ [])) now e
    ∙ (feed_append filter (at f [] false now) (c ∷ s) (b'\n' ∷ []) now
        ∙ (ap (on_from filter (b'\n' ∷ []) now)
              (feed_kept filter f [] (c ∷ s) now e l (omega (arith, h)))
            ∙ feed_one filter full (ferrum_reset done.0) b'\n' now done.1 (
                byte_lem filter full full b'\n' now e (gap_none f (c ∷ s) false now)
                ∙ ends filter f c s now)))

keep_full :
    (filter : Option (ℤ × ℤ → ℤ × ℤ)) (f : Ferrum) (l : List ℕ) (o : Bool) (b now : ℕ)
    → is_end b ≡ false
    → 127 ≤ length l
    → take_byte filter (at f l o now) b now ≡ (at f l true now, [])
unfolding take_byte
keep_full filter f l o b now e h =
    if_false (is_end b) _ _ e ∙ if_false (ltb (length l) (line_max - 1)) _ _ (ground (arith, h))

feed_full :
    (filter : Option (ℤ × ℤ → ℤ × ℤ)) (f : Ferrum) (l s : List ℕ) (now : ℕ)
    → f.catch.active ≡ false
    → IsLine s
    → 127 ≤ length l
    → feed filter (at f l true now) s now ≡ (at f l true now, [])
unfolding feed
feed_full filter f l [] now e line_end h = refl
feed_full filter f l (b ∷ s) now e (line_char _ _ c t) h =
    feed_cons filter (at f l true now) (at f l true now) (at f l true now) b s now [] []
      (byte_lem filter (at f l true now) (at f l true now) b now e (gap_none f l true now)
        ∙ keep_full filter f l true b now c h)
      (feed_full filter f l s now e t h)

keep_last :
    (filter : Option (ℤ × ℤ → ℤ × ℤ)) (f : Ferrum) (l : List ℕ) (now : ℕ)
    → take_byte filter (at f l true now) b'\n' now ≡ (at f [] false now, [])
unfolding take_byte ferrum_reset
keep_last filter f l now =
    ap (λ (q : Outcome). (ferrum_reset q.0, q.1))
      (if_false (ltb 0 (length l) && false) (dispatch_line filter (at f l true now) l now)
        (at f l true now, []) (ground arith))

-- A line of more than 127 bytes, the first 127 of which are `l`, that comes at once on an empty buffer,
-- while no catch of motion is open: nothing of it is carried out, and the buffer is empty again.
pub long_line_dropped :
    (filter : Option (ℤ × ℤ → ℤ × ℤ)) (f : Ferrum) (c : ℕ) (l : List ℕ) (b : ℕ) (s : List ℕ)
    (now : ℕ)
    → f.catch.active ≡ false
    → IsLine (c ∷ l)
    → IsLine (b ∷ s)
    → length (c ∷ l) ≡ 127
    → feed filter (ferrum_reset f) ((c ∷ l) ++ ((b ∷ s) ++ (b'\n' ∷ []))) now
      ≡ (at f [] false now, [])
long_line_dropped filter f c l b s now e p (line_char _ _ q t) h =
    let over = at f (c ∷ l) true now in
    let empty = at f [] false now in
    feed_fresh filter f c (l ++ ((b ∷ s) ++ (b'\n' ∷ []))) now e
    ∙ (feed_append filter empty (c ∷ l) ((b ∷ s) ++ (b'\n' ∷ [])) now
        ∙ (ap (on_from filter ((b ∷ s) ++ (b'\n' ∷ [])) now)
              (feed_kept filter f [] (c ∷ l) now e p (omega (arith, h)))
            ∙ (feed_append filter (at f (c ∷ l) false now) (b ∷ s) (b'\n' ∷ []) now
                ∙ (ap (on_from filter (b'\n' ∷ []) now) (
                      feed_cons filter (at f (c ∷ l) false now) over over b s now [] []
                        (byte_lem filter (at f (c ∷ l) false now) (at f (c ∷ l) false now) b now e
                            (gap_none f (c ∷ l) false now)
                          ∙ keep_full filter f (c ∷ l) false b now q (omega (arith, h)))
                        (feed_full filter f (c ∷ l) s now e t (omega (arith, h))))
                    ∙ feed_one filter over empty b'\n' now [] (
                        byte_lem filter over over b'\n' now e (gap_none f (c ∷ l) true now)
                        ∙ keep_last filter f (c ∷ l) now)))))
