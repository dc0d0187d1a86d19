-- ===== src/Hurra/Tests.antt =====
-- Frames on concrete bytes.
use hurra_v.Base.{◌≡◌, refl, arith, false, none, [], ◌∷◌, replicate, map}
use hurra_v.Base.Int.{pos, negsuc}
use hurra_v.Actions.Mouse.{act_move}
use hurra_v.Ferrum.Decimal.{format_int}
use hurra_v.Ferrum.Commands
use hurra_v.Ferrum.Commands.{cmd_move}
use hurra_v.Ferrum.Tests.{idle_ferrum}
use hurra_v.Hurra.{Hurra, Msg, Uart, moved, no_stats, track_id, invalid}
use hurra_v.Hurra.Listeners.{ascii_to_hid}
use hurra_v.Hurra.Dispatch.{on_frame, find_type, mask}
use hurra_v.Hurra.Dispatch.Lengths.{wrong_length_refused}
use hurra_v.Hurra.Dispatch.Moves.{same_move}

abbrev idle_hurra : Hurra
idle_hurra = record {
  stats = no_stats;
  last_rx_id = 0;
  have_last_id = false;
  reboot_at = 0;
  reboot_scheduled = false;
  baud_pending = 0;
  baud_apply_at = 0;
  baud_scheduled = false;
  cb_buttons = false;
  cb_axes = false;
  cb_keys = false;
  cb_phys = false;
  last_btn_emitted = 0;
  last_keys_emitted = replicate 6 0;
  screen_w = pos 0;
  screen_h = pos 0;
  catch = record { active = false; deadline = 0; accum_x = pos 0; accum_y = pos 0; reply_id = 0 };
  rng_state = 0xdeadbeef;
  actions = idle_ferrum.actions;
}

abbrev port : Uart
port = record { current_baud = 115200; rx_drv_overrun = 0; tx_room = 256 }

abbrev short_mask : Msg
short_mask = record { kind = 0x44; frame_id = 9; bytes = 4 ∷ [] }

wrong_length_refused_example :
    on_frame none port idle_hurra short_mask 50 ≡ invalid (track_id idle_hurra 9)
unfolding find_type
wrong_length_refused_example =
    wrong_length_refused none port mask idle_hurra short_mask 50 refl refl

same_move_example :
    (on_frame none port idle_hurra
        (record { kind = 0x10; frame_id = 3; bytes = 200 ∷ 0 ∷ 251 ∷ 255 ∷ [] })
        50
      ≡ (
        record (track_id idle_hurra 3) {
          actions = record idle_hurra.actions {
            mouse = (act_move none idle_ferrum.actions.mouse (pos 200) (negsuc 4)).0;
          };
        },
        map moved (act_move none idle_ferrum.actions.mouse (pos 200) (negsuc 4)).1,
      ))
    × (cmd_move none idle_ferrum (format_int (pos 200) ∷ format_int (negsuc 4) ∷ []) ≡ (
      record idle_ferrum {
        actions = record idle_ferrum.actions {
          mouse = (act_move none idle_ferrum.actions.mouse (pos 200) (negsuc 4)).0;
        };
      },
      map Commands.moved (act_move none idle_ferrum.actions.mouse (pos 200) (negsuc 4)).1,
    ))
same_move_example =
    same_move none port idle_hurra idle_ferrum (pos 200) (negsuc 4) 3 50 refl
      (omega arith, omega arith) (omega arith, omega arith)

letters : (ascii_to_hid b'z' ≡ 0x1d) × (ascii_to_hid b'A' ≡ 4) × (ascii_to_hid b'!' ≡ 0)
unfolding ascii_to_hid
letters = (refl, refl, refl)
