-- ===== src/Ferrum/Tests.antt =====
-- Commands on concrete lines.
use hurra_v.Base.{
  ℕ, zero, suc, ◌≡◌, ◌≤◌, refl, arith, true, false, none, some, List, [], ◌∷◌, ◌++◌, length,
  replicate,
}
use hurra_v.Base.Int.{pos, negsuc}
use hurra_v.Base.Text.{ascii}
use hurra_v.Actions.Pump.{no_program}
use hurra_v.Actions.Mouse.{idle}
use hurra_v.Timing.{time_deadline_reached}
use hurra_v.Ferrum.Decimal.{parse_int, format_int, signed, digits, magnitude, digits_of}
use hurra_v.Ferrum.Decimal.RoundTrip.{parse_int-format_int}
use hurra_v.Ferrum.Args.Prints.{print, join, name_end, name_char}
use hurra_v.Ferrum.Commands.{Ferrum, reply, catch_for}
use hurra_v.Ferrum.Dispatch.{dispatch}
use hurra_v.Ferrum.Line.{ferrum_reset, ferrum_tick, feed}
use hurra_v.Ferrum.Line.Feeds.{at, IsLine, line_end, line_char, long_line_dropped}
use hurra_v.Ferrum.Line.Printed.{feed-print}
use hurra_v.Ferrum.Line.Room.{feed-HasRoom}
use hurra_v.Ferrum.Line.Caught.{Motion, notify_all, catch_answers}
use hurra_v.Ferrum.Notify.{sorted_keys, insert, sort_from}

parse_int-format_int_example : parse_int (format_int (negsuc 0x7fffffff)) ≡ some (negsuc 0x7fffffff)
parse_int-format_int_example = parse_int-format_int (negsuc 0x7fffffff) (omega arith) (omega arith)

int_min : format_int (negsuc 0x7fffffff) ≡ ascii "-2147483648"
unfolding format_int magnitude digits_of
int_min = refl

no_number :
    (parse_int (ascii "-") ≡ none)
    × (parse_int (ascii "2147483648") ≡ none)
    × (parse_int (ascii "+7") ≡ some (pos 7))
unfolding parse_int signed digits
no_number = (refl, refl, refl)

abbrev pub idle_ferrum : Ferrum
idle_ferrum = record {
  line = [];
  overflow = false;
  last_byte_ms = 0;
  cb_buttons = false;
  cb_axes = false;
  cb_keys = false;
  catch = record { active = false; deadline = 0; accum_x = pos 0; accum_y = pos 0 };
  last_keys = replicate 6 0;
  last_buttons = 0;
  actions = record {
    mouse = record {
      buttons = 1;
      click = idle;
      pos_x = pos 0;
      pos_y = pos 0;
      invert_x = false;
      invert_y = true;
      swap_xy = false;
      motion = no_program;
    };
    keyboard = record { modifier = 0; keys = replicate 6 0; releases = [] };
    masks = record { mouse = 0; keys = [] };
    lock_mask = 0;
  };
}

feed-print_example :
    feed none (ferrum_reset idle_ferrum) (print (ascii "wheel") (negsuc 1 ∷ []) ++ (b'\n' ∷ [])) 50
    ≡ (
      ferrum_reset
          (dispatch none
            (at idle_ferrum (print (ascii "wheel") (negsuc 1 ∷ [])) false 50)
            (ascii "wheel")
            (format_int (negsuc 1) ∷ [])
            50).0,
      (dispatch none
          (at idle_ferrum (print (ascii "wheel") (negsuc 1 ∷ [])) false 50)
          (ascii "wheel")
          (format_int (negsuc 1) ∷ [])
          50).1,
    )
unfolding print join format_int magnitude digits_of
feed-print_example =
    feed-print none idle_ferrum (ascii "wheel") (negsuc 1 ∷ []) 50 refl
      (name_char _ _ refl (
        name_char _ _ refl (name_char _ _ refl (name_char _ _ refl (name_char _ _ refl name_end)))))
      (line_char _ _ refl (
        line_char _ _ refl (line_char _ _ refl (line_char _ _ refl (line_char _ _ refl line_end)))))
      (omega arith) (omega arith) (omega arith)

letters-IsLine : (n : ℕ) → IsLine (replicate n b'a')
letters-IsLine zero = line_end
letters-IsLine (suc n) = line_char b'a' (replicate n b'a') refl (letters-IsLine n)

long_line_dropped_example :
    feed none
      (ferrum_reset idle_ferrum)
      ((b'a' ∷ replicate 126 b'a') ++ ((b'b' ∷ []) ++ (b'\n' ∷ [])))
      50
    ≡ (at idle_ferrum [] false 50, [])
long_line_dropped_example =
    long_line_dropped none idle_ferrum b'a' (replicate 126 b'a') b'b' [] 50 refl
      (line_char _ _ refl (letters-IsLine 126)) (line_char _ _ refl line_end) (omega arith)

feed-HasRoom_example : length (feed none idle_ferrum (ascii "km.move(1, 2)") 50).0.line ≤ 127
feed-HasRoom_example = feed-HasRoom none idle_ferrum (ascii "km.move(1, 2)") 50 (omega arith)

abbrev two_motions : List Motion
two_motions =
    record { dx = pos 3; dy = negsuc 0; scroll = pos 0 }
    ∷ record { dx = pos 4; dy = pos 5; scroll = pos 0 }
    ∷ []

catch_answers_example :
    ferrum_tick (notify_all (catch_for idle_ferrum (pos 20) 100).0 two_motions) 121 ≡ (
      record idle_ferrum {
        catch = record { active = false; deadline = 120; accum_x = pos 0; accum_y = pos 0 };
      },
      reply (ascii "(7, 4)\r\n") ∷ [],
    )
unfolding format_int magnitude digits_of time_deadline_reached
catch_answers_example = catch_answers idle_ferrum (pos 20) 100 121 two_motions

sorted_example_keys : sorted_keys (9 ∷ 0 ∷ 4 ∷ 4 ∷ 0 ∷ 7 ∷ []) ≡ 0 ∷ 0 ∷ 4 ∷ 4 ∷ 7 ∷ 9 ∷ []
unfolding insert sort_from
sorted_example_keys = refl
