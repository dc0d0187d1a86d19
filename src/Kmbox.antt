-- ===== src/Kmbox.antt =====
-- src/kmbox_cmd.c and src/kmbox_cmd_host.c: the records of injected input, on one board and on two.
pub mod V3f
pub mod Host
pub mod Same
mod Tests
use hurra_v.Base.{ℕ, ◌*◌, ◌/◌, ◌%◌, ◌^◌}

-- `ICC_TAG_INJECT_MOUSE` and the tags after it
abbrev pub tag_mouse : ℕ
tag_mouse = 1

abbrev pub tag_keyboard : ℕ
tag_keyboard = 2

abbrev pub tag_click_release : ℕ
tag_click_release = 3

abbrev pub tag_kb_release : ℕ
tag_kb_release = 4

-- The casts to `uint8_t` after a shift by that many bytes.
abbrev pub byte : ℕ → ℕ → ℕ
byte n word = word / 2 ^ (8 * n) % 256
