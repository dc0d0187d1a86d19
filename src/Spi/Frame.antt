-- ===== src/Spi/Frame.antt =====
-- src/spi_frame.c and src/spi_frame.h: the codec of the fixed 32-byte slot, its CRC-16/CCITT-FALSE
-- and the sequence gap. A slot is the list of its bytes.
pub mod Crc
pub mod RoundTrip
pub mod Corruption
mod Tests
use hurra_v.Base.{ℕ, zero, suc, ◌+◌, ◌-◌, ◌*◌, ◌/◌, ◌%◌, bit_and, bit_or, bit_xor}
use hurra_v.Base.{List, [], ◌∷◌, ◌++◌, ltb, ◌==◌, if◌then◌else◌}
use hurra_v.Base.{get_or, take, drop, replicate}

abbrev pub sof : ℕ
sof = 0x68

abbrev pub slot_size : ℕ
slot_size = 32

abbrev pub max_payload : ℕ
max_payload = 26

abbrev pub off_pay : ℕ
off_pay = 4

abbrev pub off_crc : ℕ
off_crc = 30

-- One round of the inner loop of `spi_frame_crc16`.
pub crc_bit : ℕ → ℕ
crc_bit crc =
    if bit_and crc 0x8000 == 0 then crc * 2 % 0x10000 else bit_xor (crc * 2) 0x1021 % 0x10000

-- `for (int b = 0; b < n; b++)`
pub crc_bits : ℕ → ℕ → ℕ
crc_bits zero crc = crc
crc_bits (suc n) crc = crc_bits n (crc_bit crc)

-- One round of the outer loop: a data byte enters at the top, then eight shifts.
pub crc_byte : ℕ → ℕ → ℕ
crc_byte crc d = crc_bits 8 (bit_xor crc (d * 256 % 0x10000))

pub crc_loop : ℕ → List ℕ → ℕ
crc_loop crc [] = crc
crc_loop crc (d ∷ ds) = crc_loop (crc_byte crc d) ds

pub crc16 : List ℕ → ℕ → ℕ
crc16 bytes len = crc_loop 0xffff (take len bytes)

-- `spi_frame_result_t`, with what a successful call hands over.
pub data FrameResult {ℓ} (A : Type ℓ) : Type ℓ where
  ok : A → FrameResult A
  err_sof err_len err_crc : FrameResult A

-- What goes through the out-parameters of `spi_frame_unpack`; `payload` is the rest of the slot
-- from the payload's first byte on, of which `len` bytes are in use.
pub record Frame : Type 0 where
  pub type : ℕ
  pub seq : ℕ
  pub payload : List ℕ
  pub len : ℕ

-- The 30 bytes under the CRC: the header, `len` payload bytes, and zeros.
pub body : ℕ → ℕ → List ℕ → ℕ → List ℕ
body type seq payload len =
    sof ∷ type ∷ seq ∷ len ∷ (take len payload ++ replicate (max_payload - len) 0)

-- Every byte of the slot is written on success, and none on `err_len`.
pub pack : ℕ → ℕ → List ℕ → ℕ → FrameResult (List ℕ)
pack type seq payload len =
    if ltb max_payload len
    then err_len
    else let slot = body type seq payload len in
      let crc = crc16 slot off_crc in ok (slot ++ (bit_and crc 0xff ∷ crc / 256 % 256 ∷ []))

-- The CRC field of a slot, little-endian.
pub stored_crc : List ℕ → ℕ
stored_crc slot = bit_or (get_or slot off_crc 0) (get_or slot (off_crc + 1) 0 * 256) % 0x10000

pub unpack : List ℕ → FrameResult Frame
unpack slot =
    if get_or slot 0 0 == sof
    then if ltb max_payload (get_or slot 3 0)
      then err_len
      else if crc16 slot off_crc == stored_crc slot
      then ok (record {
        type = get_or slot 1 0;
        seq = get_or slot 2 0;
        payload = drop off_pay slot;
        len = get_or slot 3 0;
      })
      else err_crc
    else err_sof

pub seq_gap : ℕ → ℕ → ℕ
seq_gap prev seq =
    let delta = (seq + 256 - prev) % 256 in if delta == 0 then 0 else (delta + 256 - 1) % 256
