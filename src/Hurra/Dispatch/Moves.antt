-- ===== src/Hurra/Dispatch/Moves.antt =====
-- The binary and the text protocol move the mouse alike.
use hurra_v.Base.{
  ℕ, ◌*◌, ◌/◌, ◌%◌, ◌^◌, ◌<◌, ◌≡◌, ap, ap₂, ◌∙◌, arith, bit_or, bit_or_low_high, Option,
}
use hurra_v.Base.{[], ◌∷◌, ◌++◌, map}
use hurra_v.Base.Int.{ℤ, pos, negsuc, of_word, to_word}
use hurra_v.Actions.Mouse.{Mouse, act_move}
use hurra_v.Hurra.{Hurra, Msg, Uart, Outcome, track_id, wr_i16le}
use hurra_v.Hurra
use hurra_v.Hurra.Listeners.{l_mouse_move, with_mouse}
use hurra_v.Hurra.Dispatch.{on_frame, find_type, run_listener}
use hurra_v.Ferrum.Decimal.{format_int}
use hurra_v.Ferrum.Commands.{Ferrum, cmd_move}
use hurra_v.Ferrum.Commands
use hurra_v.Ferrum.Line.Printed.{IsShort, cmd_move_lem}

to_word16-lt : (v : ℤ) → to_word 16 v < 2 ^ 16
to_word16-lt (pos n) = omega arith
to_word16-lt (negsuc n) = omega arith

wrap_short : (v : ℤ) → IsShort v → of_word 16 (to_word 16 v) ≡ v
wrap_short (pos n) h = ground (arith, h)
wrap_short (negsuc n) h = ground (arith, h)

bytes_back : (w : ℕ) → bit_or (w % 256) (w / 2 ^ 8 * 2 ^ 8) ≡ w
bytes_back w = bit_or_low_high 8 (w / 2 ^ 8) (w % 256) (omega arith) ∙ omega arith

value_back :
    (v : ℤ)
    → IsShort v
    → of_word 16 (bit_or (to_word 16 v % 256) (to_word 16 v / 2 ^ 8 * 2 ^ 8)) ≡ v
value_back v h = ap (of_word 16) (bytes_back (to_word 16 v)) ∙ wrap_short v h

-- Two values of 16 bits, as the payload of a move of the binary protocol and as the arguments of the text
-- command: where the mouse is in the same state, both leave it in the same state and inject the same moves,
-- those of `act_move`.
pub same_move :
    (filter : Option (ℤ × ℤ → ℤ × ℤ)) (u : Uart) (h : Hurra) (f : Ferrum) (x y : ℤ) (id now : ℕ)
    → h.actions.mouse ≡ f.actions.mouse
    → IsShort x
    → IsShort y
    → (on_frame filter u h
          (record { kind = 0x10; frame_id = id; bytes = wr_i16le x ++ wr_i16le y })
          now
        ≡ (
          record (track_id h id) {
            actions = record h.actions { mouse = (act_move filter f.actions.mouse x y).0 };
          },
          map Hurra.moved (act_move filter f.actions.mouse x y).1,
        ))
      × (cmd_move filter f (format_int x ∷ format_int y ∷ []) ≡ (
        record f { actions = record f.actions { mouse = (act_move filter f.actions.mouse x y).0 } },
        map Commands.moved (act_move filter f.actions.mouse x y).1,
      ))
unfolding on_frame find_type run_listener l_mouse_move track_id
same_move filter u h f x y id now e p q = (
  ap₂ (λ (a b : ℤ). with_mouse (track_id h id) (act_move filter h.actions.mouse a b))
        (value_back x p) (value_back y q)
      ∙ ap (λ (m : Mouse). with_mouse (track_id h id) (act_move filter m x y)) e,
  cmd_move_lem filter f x y p q,
)
