-- ===== src/Hid/Field.antt =====
-- src/hid_layout.c, `hid_layout_read_field`, and src/usb_merge.c, `write_report_field`: a bit field of a
-- report. A field has at most 32 bits; the shifts of C are undefined beyond that.
pub mod Whole
use hurra_v.Base.{
  ℕ, zero, suc, ◌+◌, ◌-◌, ◌*◌, ◌/◌, ◌%◌, ◌^◌, Bool, true, false, ◌&&◌, bit_and, bit_or,
}
use hurra_v.Base.{List, [], ◌∷◌, get_or, set, ltb, ◌==◌, if◌then◌else◌}
use hurra_v.Base.Int.{ℤ, pos, of_word, to_word, shr}

-- A little-endian `int16_t`, and its two bytes.
abbrev pub read16 : List ℕ → ℕ → ℤ
read16 buf i = of_word 16 (bit_or (get_or buf i 0) (get_or buf (i + 1) 0 * 2 ^ 8))

abbrev pub write16 : List ℕ → ℕ → ℤ → List ℕ
write16 buf i value = set (set buf i (to_word 8 value)) (i + 1) (to_word 8 (shr value 8))

abbrev pub read8 : List ℕ → ℕ → ℤ
read8 buf i = of_word 8 (get_or buf i 0)

abbrev pub write8 : List ℕ → ℕ → ℤ → List ℕ
write8 buf i value = set buf i (to_word 8 value)

-- The bytes from `i` on, the first one lowest, as a word of 32 bits.
pub gather : ℕ → List ℕ → ℕ → ℕ → ℕ
gather zero buf i shift = 0
gather (suc n) buf i shift =
    bit_or (get_or buf i 0 * 2 ^ shift % 2 ^ 32) (gather n buf (i + 1) (shift + 8))

pub hid_layout_read_field : List ℕ → ℕ → ℕ → ℕ → ℕ → ℤ
hid_layout_read_field buf buf_len bit_off bit_size data_off =
    let abs_bit = (bit_off + data_off * 8) % 2 ^ 16 in
    let byte_idx = abs_bit / 8 in
    let bit_idx = abs_bit % 8 in
    if bit_idx == 0 && bit_size == 16
    then (if ltb buf_len (byte_idx + 2) then pos 0 else read16 buf byte_idx)
    else if bit_idx == 0 && bit_size == 8
    then (if ltb buf_len (byte_idx + 1) then pos 0 else read8 buf byte_idx)
    else let bytes_needed = (bit_idx + bit_size + 7) / 8 in
      if ltb buf_len (byte_idx + bytes_needed)
      then pos 0
      else let raw = gather bytes_needed buf byte_idx 0 / 2 ^ bit_idx % 2 ^ bit_size in
        let negative = raw / 2 ^ (bit_size - 1) % 2 == 1 in
        of_word 32 (if negative then bit_or raw ((2 ^ (32 - bit_size) - 1) * 2 ^ bit_size) else raw)

-- The bytes from `i` on, with the bits of `mask` replaced by those of `val`.
pub scatter : ℕ → List ℕ → ℕ → ℕ → ℕ → List ℕ
scatter zero buf i mask val = buf
scatter (suc n) buf i mask val =
    let byte = bit_or (bit_and (get_or buf i 0) (255 - mask % 256)) (val % 256) in
    scatter n (set buf i byte) (i + 1) (mask / 256) (val / 256)

pub write_report_field : List ℕ → ℕ → ℕ → ℕ → ℕ → ℤ → List ℕ
write_report_field buf buf_len bit_off bit_size data_off value =
    let abs_bit = (bit_off + data_off * 8) % 2 ^ 16 in
    let byte_idx = abs_bit / 8 in
    let bit_idx = abs_bit % 8 in
    if bit_idx == 0 && bit_size == 16
    then (if ltb buf_len (byte_idx + 2) then buf else write16 buf byte_idx value)
    else if bit_idx == 0 && bit_size == 8
    then (if ltb buf_len (byte_idx + 1) then buf else write8 buf byte_idx value)
    else let ones = 2 ^ bit_size - 1 in
      let mask = ones * 2 ^ bit_idx % 2 ^ 32 in
      let val = bit_and (to_word 32 value) ones * 2 ^ bit_idx % 2 ^ 32 in
      let bytes_needed = (bit_idx + bit_size + 7) / 8 in
      if ltb buf_len (byte_idx + bytes_needed)
      then buf
      else scatter bytes_needed buf byte_idx mask val

-- A field of one or two whole bytes.
abbrev pub read_at : Bool → List ℕ → ℕ → ℤ
read_at true buf i = read16 buf i
read_at false buf i = read8 buf i

abbrev pub write_at : Bool → List ℕ → ℕ → ℤ → List ℕ
write_at true buf i value = write16 buf i value
write_at false buf i value = write8 buf i value
