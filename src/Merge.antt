-- ===== src/Merge.antt =====
-- src/usb_merge.c: the state of the merge, and the injected input that it collects.
pub mod Accum
pub mod Report
pub mod Send
mod Tests
use hurra_v.Base.{ℕ, Bool, false, List, [], ◌∷◌, replicate}
use hurra_v.Base.Int.{ℤ, pos}
use hurra_v.Actions.Keys.{Release}
use hurra_v.Actions.Masks.{Masks}
use hurra_v.Humanize.{Humanize}
use hurra_v.Hid.{MouseLayout, no_layout}

-- `merge_inject_t`; `kb_releases` are the entries below `kb_release_count`.
pub record Inject : Type 0 where
  pub mouse_dx : ℤ
  pub mouse_dy : ℤ
  pub mouse_buttons : ℕ
  pub mouse_wheel : ℤ
  pub mouse_dirty : Bool
  pub kb_modifier : ℕ
  pub kb_keys : List ℕ
  pub kb_dirty : Bool
  pub click_release_mask : ℕ
  pub click_release_at : ℕ
  pub kb_releases : List Release

abbrev pub no_inject : Inject
no_inject = record {
  mouse_dx = pos 0;
  mouse_dy = pos 0;
  mouse_buttons = 0;
  mouse_wheel = pos 0;
  mouse_dirty = false;
  kb_modifier = 0;
  kb_keys = replicate 6 0;
  kb_dirty = false;
  click_release_mask = 0;
  click_release_at = 0;
  kb_releases = [];
}

-- `inject`, the cached endpoints and layout, the two variables of the output cadence, and what the merge
-- uses of src/humanize.c and of the masks of src/actions.c.
pub record Merge : Type 0 where
  pub inject : Inject
  pub humanizer : Humanize
  pub masks : Masks
  pub mouse_ep : ℕ
  pub mouse_maxpkt : ℕ
  pub kb_ep : ℕ
  pub layout : MouseLayout
  pub report_len : ℕ
  pub last_merge_ms : ℕ
  pub merged_this_cycle : Bool

pub usb_merge_init : Merge → Merge
usb_merge_init m = record m {
  inject = no_inject;
  mouse_ep = 0;
  mouse_maxpkt = 0;
  kb_ep = 0;
  layout = no_layout;
  report_len = 0;
}
