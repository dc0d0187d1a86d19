-- ===== src/Hid/Parse.antt =====
-- src/hid_layout.c, `hid_layout_parse_mouse`: the items of a report descriptor.
pub mod Ends
use hurra_v.Base.{
  ℕ, zero, suc, ◌+◌, ◌-◌, ◌*◌, ◌/◌, ◌%◌, ◌^◌, Bool, true, false, ◌&&◌, ◌||◌, bit_and, bit_or,
  Option, none, some,
}
use hurra_v.Base.{List, [], ◌∷◌, ◌++◌, get_or, length, ltb, leb, ◌==◌, if◌then◌else◌}
use hurra_v.Hid.{MouseLayout, no_layout}
use hurra_v.Hid.Derive.{derive}

-- The variables of the parser; `usages` are those below `num_usages`.
pub record Parser : Type 0 where
  pub usage_page : ℕ
  pub usages : List ℕ
  pub usage_min : ℕ
  pub usage_max : ℕ
  pub report_size : ℕ
  pub report_count : ℕ
  pub current_rid : ℕ
  pub bit_pos : ℕ
  pub ml : MouseLayout

abbrev pub start : Parser
start = record {
  usage_page = 0;
  usages = [];
  usage_min = 0;
  usage_max = 0;
  report_size = 0;
  report_count = 0;
  current_rid = 0;
  bit_pos = 0;
  ml = no_layout;
}

-- `uint32_t val` of an item of `sz` bytes at `i`.
unfoldable pub item_val : List ℕ → ℕ → ℕ → ℕ
item_val rd i sz =
    let v1 = if leb 1 sz then get_or rd (i + 1) 0 else 0 in
    let v2 = if leb 2 sz then bit_or v1 (get_or rd (i + 2) 0 * 2 ^ 8) else v1 in
    if leb 4 sz
    then bit_or v2 (bit_or (get_or rd (i + 3) 0 * 2 ^ 16) (get_or rd (i + 4) 0 * 2 ^ 24))
    else v2

-- The loop that lists a usage range, while there is room for 16 usages; `left` is what room there is.
unfoldable pub usage_range : ℕ → ℕ → ℕ → List ℕ
usage_range zero u last = []
usage_range (suc left) u last =
    let rest = usage_range left ((u + 1) % 2 ^ 16) last in if leb u last then u % 256 ∷ rest else []

-- The usage of field `f`: the last one listed serves for all further fields.
unfoldable pub usage_of : List ℕ → ℕ → ℕ
usage_of usages f =
    if ltb f (length usages) then get_or usages f 0 else get_or usages (length usages - 1) 0

-- A field of the Generic Desktop page: X, Y or the wheel.
unfoldable pub note_field : Parser → ℕ → MouseLayout
note_field p u =
    if p.usage_page == 0x01
    then (if u == 0x30
        then record p.ml { x_bit = p.bit_pos; x_size = p.report_size; report_id = p.current_rid }
        else if u == 0x31
        then record p.ml { y_bit = p.bit_pos; y_size = p.report_size; y_report_id = p.current_rid }
        else if u == 0x38
        then record p.ml {
          wheel_bit = p.bit_pos;
          wheel_size = p.report_size;
          wheel_report_id = p.current_rid;
        }
        else p.ml)
    else p.ml

-- The loop over the fields of an Input item, from field `f` on.
unfoldable pub input_fields : ℕ → ℕ → Parser → Parser
input_fields zero f p = p
input_fields (suc left) f p = input_fields left (f + 1) (record p {
  ml = note_field p (usage_of p.usages f);
  bit_pos = (p.bit_pos + p.report_size) % 2 ^ 16;
})

abbrev pub forget : Parser → Parser
forget p = record p { usages = []; usage_min = 0; usage_max = 0 }

unfoldable pub input : Parser → Parser
input p =
    let listed =
      if (length p.usages == 0) && leb p.usage_min p.usage_max
      then usage_range 16 p.usage_min p.usage_max
      else p.usages in
    forget (input_fields p.report_count 0 (record p { usages = listed }))

-- The `switch` over the items.
unfoldable pub item : Parser → ℕ → ℕ → Parser
item p tag val =
    if tag == 0x04
    then record p { usage_page = val % 2 ^ 16 }
    else if tag == 0x74
    then record p { report_size = val % 256 }
    else if tag == 0x94
    then record p { report_count = val % 256 }
    else if tag == 0x84
    then record p { current_rid = val % 256; bit_pos = 0 }
    else if tag == 0x08
    then (if ltb (length p.usages) 16
        then record p { usages = p.usages ++ (val % 256 ∷ []) }
        else p)
    else if tag == 0x18
    then record p { usage_min = val % 2 ^ 16 }
    else if tag == 0x28
    then record p { usage_max = val % 2 ^ 16 }
    else if tag == 0x80
    then input p
    else if tag == 0xa0
    then forget p
    else if tag == 0xc0
    then record p { usages = [] }
    else p

-- The number of bytes of an item's data.
abbrev pub data_size : ℕ → ℕ
data_size b = if b % 4 == 3 then 4 else b % 4

-- A round of the loop at byte `i`: where the next item is and what it finds, or `none` where the loop ends.
-- A long item is passed over.
unfoldable pub round : List ℕ → ℕ → ℕ → Parser → Option (ℕ × Parser)
round rd rdlen i p =
    let b = get_or rd i 0 in
    let sz = data_size b in
    if leb rdlen i
    then none
    else if b == 0xfe
    then (if ltb (i + 2) rdlen then some ((i + 3 + get_or rd (i + 1) 0) % 2 ^ 16, p) else none)
    else if ltb rdlen (i + 1 + sz)
    then none
    else some ((i + 1 + sz) % 2 ^ 16, item p (b / 4 * 4) (item_val rd i sz))

-- The loop from byte `i` on, on fuel, with a round that only ends it counted in: `none` where the fuel runs
-- out. Each other round passes a byte or more.
unfoldable pub items : ℕ → List ℕ → ℕ → ℕ → Parser → Option Parser
items zero rd rdlen i p = none
items (suc fuel) rd rdlen i p = elim (round rd rdlen i p) [
  | none ↦ some p
  | some next ↦ items fuel rd rdlen next.0 next.1
]

-- A loop that goes on for more rounds than there are bytes has no result in C; here it finds no mouse.
unfoldable pub hid_layout_parse_mouse : List ℕ → ℕ → MouseLayout
hid_layout_parse_mouse rd rdlen = elim (items (rdlen + 1) rd rdlen 0 start) [
  | none ↦ no_layout
  | some p ↦ derive p.ml
]
