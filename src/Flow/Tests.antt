-- ===== src/Flow/Tests.antt =====
-- A move of the mouse, from the text to the injected motion.
use hurra_v.Base.{◌≡◌, refl, arith, true, false, none, [], ◌∷◌, ◌++◌}
use hurra_v.Base.Int.{pos, negsuc}
use hurra_v.Base.Text.{ascii}
use hurra_v.Ferrum.Args.Prints.{print}
use hurra_v.Ferrum.Line.{ferrum_reset, feed}
use hurra_v.Merge.{Merge, no_inject}
use hurra_v.Hid.{no_layout}
use hurra_v.Flow.{apply_effects, move_reaches_merge}
use hurra_v.Ferrum.Tests.{idle_ferrum}

abbrev idle_merge : Merge
idle_merge = record {
  inject = no_inject;
  humanizer = record { owed_x = pos 0; owed_y = pos 0; res_x = pos 0; res_y = pos 0 };
  masks = record { mouse = 0; keys = [] };
  mouse_ep = 1;
  mouse_maxpkt = 8;
  kb_ep = 0;
  layout = no_layout;
  report_len = 4;
  last_merge_ms = 0;
  merged_this_cycle = false;
}

-- Motion that is already near the cap.
abbrev moving_merge : Merge
moving_merge = record idle_merge { inject = record no_inject { mouse_dx = pos 4000 } }

move_reaches_merge_example :
    apply_effects moving_merge 60
      (feed none
        (ferrum_reset idle_ferrum)
        (print (ascii "move") (pos 200 ∷ negsuc 4 ∷ []) ++ (b'\n' ∷ []))
        50).1
    ≡ record moving_merge {
      inject = record no_inject {
        mouse_buttons = 1;
        mouse_dx = pos 4096;
        mouse_dy = pos 5;
        mouse_dirty = true;
      };
    }
move_reaches_merge_example =
    move_reaches_merge idle_ferrum moving_merge (pos 200) (negsuc 4) 50 60 refl
      (omega arith, omega arith) (omega arith, omega arith)
