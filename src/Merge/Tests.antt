-- ===== src/Merge/Tests.antt =====
-- Reports of a mouse with the fields of the boot protocol and a wheel.
use hurra_v.Base.{ℕ, ◌+◌, ◌≡◌, refl, inl, inr, arith, true, false, List, [], ◌∷◌}
use hurra_v.Base.Int.{pos, negsuc}
use hurra_v.Hid.{MouseLayout, no_layout}
use hurra_v.Hid.Derive.{
  derive, limits, is_fast, wheel_is_fast, with_axes, with_wheel, byte_of, field_max,
}
use hurra_v.Kmbox.V3f.{inject_mouse, record_of, mouse_record}
use hurra_v.Merge.{Merge, Inject, no_inject}
use hurra_v.Merge.Report.Keyboard.{
  usb_merge_keyboard, merge_keys, merge_key, put_key, has_key, usb_merge_phys_keyboard,
}
use hurra_v.Merge.Report.Keyboard.Keys.{Settled, keyboard_merged, masked_keys_gone}
use hurra_v.Actions.Masks.{Masks, act_phys_key_masked, masked_in}
use hurra_v.Base.{get_or}
use hurra_v.Merge.Accum.{usb_merge_apply_record, merge_apply_mouse}
use hurra_v.Merge.Accum.Decode.{apply_record-record_of}
use hurra_v.Merge.Report.{
  usb_merge_take_injection, fast_axis, fast_wheel, settle, usb_merge_report_fast,
  usb_merge_report_slow, fp_need,
}
use hurra_v.Humanize.{humanize_inject_emit, humanize_return, humanize_pending, drain_axis}
use hurra_v.Merge.Report.Plain.{IsFound}
use hurra_v.Merge.Report.Same.{derived_same}
use hurra_v.Merge.Report.Conserve.{IsConserved, IsInRange, IsTaken, report_conserves}
use hurra_v.Merge.Report.Conserve.Fields.{IsSpread}
use hurra_v.Merge.Send.{UsbDevice, usb_merge_forward_report}
use hurra_v.Merge.Send.Atomic.{forward_refused}

abbrev wheel_mouse : MouseLayout
wheel_mouse = record no_layout {
  x_bit = 8;
  y_bit = 16;
  x_size = 8;
  y_size = 8;
  wheel_bit = 24;
  wheel_size = 8;
}

wheel_mouse-IsFound : IsFound wheel_mouse
unfolding limits is_fast wheel_is_fast field_max
wheel_mouse-IsFound = record {
  fast = refl;
  x_low = omega arith;
  y_low = omega arith;
  wheel_fits = inl (refl, omega arith);
}

abbrev merge_state : Merge
merge_state = record {
  inject = record no_inject {
    mouse_dx = pos 200;
    mouse_dy = negsuc 4;
    mouse_wheel = pos 3;
    mouse_dirty = true;
  };
  humanizer = record { owed_x = pos 0; owed_y = pos 0; res_x = pos 0; res_y = pos 0 };
  masks = record { mouse = 0; keys = [] };
  mouse_ep = 1;
  mouse_maxpkt = 8;
  kb_ep = 0;
  layout = derive wheel_mouse;
  report_len = 4;
  last_merge_ms = 0;
  merged_this_cycle = false;
}

abbrev moved : List ℕ
moved = 0 ∷ 10 ∷ 20 ∷ 255 ∷ []

derived_same_example :
    usb_merge_report_fast merge_state moved
    ≡ usb_merge_report_slow merge_state moved 4
        (derive wheel_mouse).report_id
        (derive wheel_mouse).data_off
unfolding derive limits is_fast wheel_is_fast with_axes with_wheel byte_of field_max fp_need
derived_same_example =
    derived_same merge_state wheel_mouse moved 4 wheel_mouse-IsFound refl (omega arith)

spread : IsSpread (derive wheel_mouse) 4
unfolding derive limits is_fast wheel_is_fast with_axes with_wheel byte_of field_max
spread = record {
  x_most = refl;
  y_most = refl;
  w_most = refl;
  x_room = omega arith;
  y_room = omega arith;
  w_room = λ e. omega arith;
  x_button = inl (omega arith);
  y_button = inl (omega arith);
  w_button = inl (omega arith);
  x_y = inr (omega arith);
  x_w = inr (omega arith);
  y_w = inr (omega arith);
}

report_conserves_example :
    IsConserved merge_state moved
      (usb_merge_report_fast merge_state moved).0
      (usb_merge_report_fast merge_state moved).1
    × IsInRange merge_state (usb_merge_report_fast merge_state moved).0
    × IsTaken merge_state (usb_merge_report_fast merge_state moved).0
unfolding derive limits is_fast wheel_is_fast with_axes with_wheel byte_of field_max
report_conserves_example =
    report_conserves merge_state moved spread (record { whole_x = refl; whole_y = refl })
      (omega arith, omega arith)
      (record {
        owed_x_small = (omega arith, omega arith);
        owed_y_small = (omega arith, omega arith);
        mouse_dx_small = (omega arith, omega arith);
        mouse_dy_small = (omega arith, omega arith);
      })

-- 200 counts are injected where the field holds 10: it is filled to 127, and 83 are still owed.
filled_up :
    ((usb_merge_report_fast merge_state moved).1 ≡ 0 ∷ 127 ∷ 15 ∷ 2 ∷ [])
    × ((usb_merge_report_fast merge_state moved).0.humanizer.owed_x ≡ pos 83)
    × ((usb_merge_report_fast merge_state moved).0.inject.mouse_dirty ≡ true)
unfolding usb_merge_report_fast usb_merge_take_injection fast_axis fast_wheel settle
    humanize_inject_emit humanize_return humanize_pending drain_axis derive limits is_fast
    wheel_is_fast with_axes with_wheel byte_of field_max
filled_up = (refl, refl, refl)

-- A device that is ready and refuses.
abbrev refusing : UsbDevice ℕ
refusing = record { in_ep_free = λ d ep. true; send_report = λ d ep report len. (d + 1, false) }

forward_refused_example :
    record (usb_merge_forward_report refusing merge_state 0 1 2 moved 4 9).0 { report_len = 4 }
    ≡ merge_state
unfolding usb_merge_forward_report
forward_refused_example = forward_refused refusing merge_state 0 1 2 moved 4 9 refl

apply_record-record_of_example :
    (usb_merge_apply_record merge_state 1
        (200 ∷ 0 ∷ 251 ∷ 255 ∷ 1 ∷ 255 ∷ 0 ∷ 0 ∷ 0 ∷ 0 ∷ 0 ∷ 0 ∷ 0 ∷ 0 ∷ 0 ∷ [])
        7
      ≡ record merge_state {
        inject = merge_apply_mouse merge_state.inject (pos 200) (negsuc 4) 1 (negsuc 0);
      })
    × (usb_merge_apply_record merge_state 1 (200 ∷ 0 ∷ 251 ∷ 255 ∷ 1 ∷ 255 ∷ 0 ∷ []) 7
        ≡ record merge_state {
          inject = merge_apply_mouse merge_state.inject (pos 200) (negsuc 4) 1 (negsuc 0);
        })
unfolding record_of mouse_record
apply_record-record_of_example =
    apply_record-record_of merge_state (inject_mouse (pos 200) (negsuc 4) 1 (negsuc 0)) 7
      ((omega arith, omega arith), (omega arith, omega arith), (omega arith, omega arith))

abbrev typing : Inject
typing = record no_inject { kb_keys = 4 ∷ 5 ∷ 0 ∷ 0 ∷ 0 ∷ 0 ∷ [] }

abbrev two_keys : List ℕ
two_keys = 0 ∷ 0 ∷ 9 ∷ 4 ∷ 0 ∷ 0 ∷ 0 ∷ 0 ∷ []

keyboard_merged_example :
    Settled (usb_merge_keyboard typing two_keys 8) 5
    × (get_or (usb_merge_keyboard typing two_keys 8) 3 0 ≡ 4)
keyboard_merged_example =
    keyboard_merged typing two_keys 8 1 3 (omega arith) (omega arith) refl (omega arith) refl

both_typed : usb_merge_keyboard typing two_keys 8 ≡ 0 ∷ 0 ∷ 9 ∷ 4 ∷ 5 ∷ 0 ∷ 0 ∷ 0 ∷ []
unfolding usb_merge_keyboard merge_keys merge_key put_key has_key
both_typed = refl

abbrev one_masked : Masks
one_masked = record { mouse = 0; keys = record { key = 9; mode = 1 } ∷ [] }

masked_keys_gone_example : get_or (usb_merge_phys_keyboard one_masked two_keys) 2 0 ≡ 0
unfolding act_phys_key_masked masked_in
masked_keys_gone_example =
    masked_keys_gone one_masked two_keys 2 (omega arith) (omega arith) (omega arith)
