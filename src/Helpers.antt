-- ===== src/Helpers.antt =====
-- The pure helpers of the headers: src/display_rowpick.h, src/uart_rx_class.h, src/hid_iface_index.h,
-- and src/usb_hs_desc.c.
pub mod Rows
mod Tests
use hurra_v.Base.{
  ℕ, zero, suc, ◌+◌, ◌%◌, ◌^◌, Bool, true, false, not, ◌||◌, bit_and, Option, none, some,
}
use hurra_v.Base.{List, [], ◌∷◌, get_or, leb, ◌==◌, if◌then◌else◌}

abbrev pub is_dirty : ℕ → ℕ → Bool
is_dirty dirty r = not (bit_and dirty (2 ^ r) == 0)

-- The loop from round `i` on.
unfoldable pub pick_from : ℕ → ℕ → ℕ → ℕ → ℕ → Option ℕ
pick_from zero i dirty start nrows = none
pick_from (suc left) i dirty start nrows =
    let rest = pick_from left (i + 1) dirty start nrows in
    let r = (start + i) % nrows in if is_dirty dirty r then some r else rest

-- `none` where the code returns -1.
unfoldable pub display_pick_row : ℕ → ℕ → ℕ → Option ℕ
display_pick_row dirty start nrows = pick_from nrows 0 dirty start nrows

-- `uart_rx_class_t`
pub record UartRxClass : Type 0 where
  pub count_or : Bool
  pub count_fe : Bool
  pub count_ne : Bool
  pub drop : Bool

pub uart_rx_classify : ℕ → UartRxClass
uart_rx_classify statr =
    let count_fe = not (bit_and statr 0x0002 == 0) in
    let count_ne = not (bit_and statr 0x0004 == 0) in
    record {
      count_or = not (bit_and statr 0x0008 == 0);
      count_fe = count_fe;
      count_ne = count_ne;
      drop = count_fe || count_ne;
    }

-- The index, where the code returns true.
pub hid_iface_index : ℕ → ℕ → Option ℕ
hid_iface_index w_index max_ifaces =
    let ifc = bit_and w_index 0xff in if leb max_ifaces ifc then none else some ifc

-- The ten bytes written to `out`; `dev` has eighteen.
unfoldable pub usb_hs_synth_qualifier : List ℕ → List ℕ
usb_hs_synth_qualifier dev =
    10
    ∷ 0x06
    ∷ get_or dev 2 0
    ∷ get_or dev 3 0
    ∷ get_or dev 4 0
    ∷ get_or dev 5 0
    ∷ get_or dev 6 0
    ∷ get_or dev 7 0
    ∷ get_or dev 17 0
    ∷ 0x00
    ∷ []
