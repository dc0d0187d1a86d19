-- ===== src/Ferrum/Line/Printed.antt =====
-- A printed command that comes in byte by byte is carried out.
use hurra_v.Base.{
  ℕ, zero, suc, ◌+◌, ◌%◌, ◌/◌, ◌≤◌, ◌<◌, ◌≡◌, inl, inr, min, refl, ap, ap₂, ◌∙◌, arith, false,
  Option, some,
}
use hurra_v.Base.{List, [], ◌∷◌, ◌++◌, map, length, length-append, Bool-cases, ◌==◌}
use hurra_v.Base.Int.{ℤ, pos, negsuc, plus, minus, clamp}
use hurra_v.Base.Text.{ascii}
use hurra_v.Actions.Mouse.{act_move}
use hurra_v.Ferrum.Decimal.{format_int, magnitude, digits_of, parse_int}
use hurra_v.Ferrum.Decimal.RoundTrip.{parse_int-format_int}
use hurra_v.Ferrum.Args.Prints.{
  print, join, IsName, name_end, name_char, IsToken, token_end, token_char, format_int-IsToken,
  parse_line-print,
}
use hurra_v.Ferrum.Commands.{Ferrum, Outcome, cmd_move, moved, with_mouse}
use hurra_v.Ferrum.Dispatch.{dispatch, find_name, name_is, run_command}
use hurra_v.Ferrum.Line.{ferrum_reset, dispatch_line, run_parsed, feed}
use hurra_v.Ferrum.Line.Feeds.{at, IsLine, line_end, line_char, feed_line}

append-IsLine : (s t : List ℕ) → IsLine s → IsLine t → IsLine (s ++ t)
append-IsLine [] t line_end q = q
append-IsLine (c ∷ s) t (line_char _ _ e p) q = line_char c (s ++ t) e (append-IsLine s t p q)

token-IsLine : (s : List ℕ) → IsToken s → IsLine s
token-IsLine [] token_end = line_end
token-IsLine (c ∷ s) (token_char _ _ low high t) =
    line_char c s (ground (arith, low)) (token-IsLine s t)

join-IsLine : (vs : List ℤ) → IsLine (join vs)
unfolding join
join-IsLine [] = line_end
join-IsLine (v ∷ []) = token-IsLine (format_int v) (format_int-IsToken v)
join-IsLine (v ∷ w ∷ vs) =
    append-IsLine (format_int v) (b',' ∷ b' ' ∷ join (w ∷ vs))
      (token-IsLine (format_int v) (format_int-IsToken v))
      (line_char b',' _ refl (line_char b' ' _ refl (join-IsLine (w ∷ vs))))

print-IsLine : (name : List ℕ) (args : List ℤ) → IsLine name → IsLine (print name args)
unfolding print
print-IsLine name args n = line_char b'k' _ refl (
    line_char b'm' _ refl (
      line_char b'.' _ refl (
        append-IsLine name (b'(' ∷ (join args ++ (b')' ∷ []))) n (
          line_char b'(' _ refl (
            append-IsLine (join args) (b')' ∷ []) (join-IsLine args)
              (line_char b')' [] refl line_end))))))

-- A command of a name without brackets and line ends, with at most eight numbers, printed on a line of at
-- most 127 bytes that comes in at once on an empty buffer while no catch of motion is open: the handler of
-- that name is given the printed numbers, and the buffer is empty again.
pub feed-print :
    (filter : Option (ℤ × ℤ → ℤ × ℤ)) (f : Ferrum) (name : List ℕ) (args : List ℤ) (now : ℕ)
    → f.catch.active ≡ false
    → IsName name
    → IsLine name
    → 0 < length name
    → length args ≤ 8
    → length (print name args) ≤ 127
    → feed filter (ferrum_reset f) (print name args ++ (b'\n' ∷ [])) now ≡ (
      ferrum_reset
          (dispatch filter (at f (print name args) false now) name (map format_int args) now).0,
      (dispatch filter (at f (print name args) false now) name (map format_int args) now).1,
    )
unfolding print dispatch_line run_parsed
feed-print filter f name args now e n l k a h =
    let s = print name args in
    feed_line filter f b'k' _ now e (print-IsLine name args l) h
    ∙ ap
        (λ (o : Option (List ℕ × List (List ℕ))). (
          ferrum_reset (run_parsed filter (at f s false now) now o).0,
          (run_parsed filter (at f s false now) now o).1,
        ))
        (parse_line-print name args n k a)

length-digits_of : (fuel u : ℕ) (s : List ℕ) → length (digits_of fuel u s) ≤ fuel + length s
unfolding digits_of
length-digits_of zero u s = omega arith
length-digits_of (suc fuel) u s = elim (Bool-cases (u == 0)) [
  | inl e ↦ rw e (omega arith)
  | inr e ↦ rw e (omega (arith, length-digits_of fuel (u / 10) ((b'0' + u % 10) ∷ s)))
]

length-magnitude : (u : ℕ) → length (magnitude u) ≤ 10
unfolding magnitude
length-magnitude u = elim (Bool-cases (u == 0)) [
  | inl e ↦ rw e (omega arith)
  | inr e ↦ rw e (omega (arith, length-digits_of 10 u []))
]

length-format_int : (v : ℤ) → length (format_int v) ≤ 11
unfolding format_int
length-format_int (pos n) = omega (arith, length-magnitude n)
length-format_int (negsuc n) = omega (arith, length-magnitude (n + 1))

move_length : (x y : ℤ) → length (print (ascii "move") (x ∷ y ∷ [])) ≤ 127
unfolding print join
move_length x y = omega (
  arith,
  length-append (format_int x ++ (b',' ∷ b' ' ∷ format_int y)) (b')' ∷ []),
  length-append (format_int x) (b',' ∷ b' ' ∷ format_int y),
  length-format_int x,
  length-format_int y,
)

-- An `int16_t`.
abbrev pub IsShort : ℤ → Type 0
IsShort v = (plus v ≤ 0x7fff) × (minus v ≤ 0x8000)

short_back : (v : ℤ) → IsShort v → (parse_int (format_int v) ≡ some v) × (clamp 0x7fff v ≡ v)
short_back (pos n) h =
    let e : min n 0x7fff ≡ n = omega (arith, h) in
    (parse_int-format_int (pos n) (omega (arith, h)) (omega arith), ap pos e)
short_back (negsuc n) h =
    let e : min n 0x7fff ≡ n = omega (arith, h) in
    (parse_int-format_int (negsuc n) (omega arith) (omega (arith, h)), ap negsuc e)

pub cmd_move_lem :
    (filter : Option (ℤ × ℤ → ℤ × ℤ)) (f : Ferrum) (x y : ℤ)
    → IsShort x
    → IsShort y
    → cmd_move filter f (format_int x ∷ format_int y ∷ [])
      ≡ with_mouse f (act_move filter f.actions.mouse x y)
unfolding cmd_move
cmd_move_lem filter f x y h k =
    let a = short_back x h in
    let b = short_back y k in
    rw (a.0, b.0, cmd_move)
      (ap₂ (λ (p q : ℤ). with_mouse f (act_move filter f.actions.mouse p q)) a.1 b.1)

-- `km.move(x, y)` with two values of 16 bits, at once on an empty buffer while no catch of motion is open:
-- the mouse does what `act_move` does with them, the moves that this injects are all that goes out, and
-- nothing else changes but for the time of the last byte.
pub move_line :
    (filter : Option (ℤ × ℤ → ℤ × ℤ)) (f : Ferrum) (x y : ℤ) (now : ℕ)
    → f.catch.active ≡ false
    → IsShort x
    → IsShort y
    → feed filter (ferrum_reset f) (print (ascii "move") (x ∷ y ∷ []) ++ (b'\n' ∷ [])) now ≡ (
      record f {
        line = [];
        overflow = false;
        last_byte_ms = now;
        actions = record f.actions { mouse = (act_move filter f.actions.mouse x y).0 };
      },
      map moved (act_move filter f.actions.mouse x y).1,
    )
unfolding dispatch find_name name_is run_command ferrum_reset
move_line filter f x y now e h k =
    let s = print (ascii "move") (x ∷ y ∷ []) in
    feed-print filter f (ascii "move") (x ∷ y ∷ []) now e
      (name_char _ _ refl (name_char _ _ refl (name_char _ _ refl (name_char _ _ refl name_end))))
      (line_char _ _ refl (line_char _ _ refl (line_char _ _ refl (line_char _ _ refl line_end))))
      (omega arith) (omega arith) (move_length x y)
    ∙ ap (λ (q : Outcome). (ferrum_reset q.0, q.1)) (cmd_move_lem filter (at f s false now) x y h k)
