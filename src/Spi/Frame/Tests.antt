-- ===== src/Spi/Frame/Tests.antt =====
-- Runs of the codec, and its theorems at concrete inputs.
use hurra_v.Base.{get_or-lt, ℕ, ◌≡◌, refl, arith, List, [], ◌∷◌, ◌++◌, ◌-◌}
use hurra_v.Base.{length, take, drop, replicate, set}
use hurra_v.Spi.Frame.{slot_size, max_payload, off_pay, ok, err_crc, err_sof, err_len, Frame}
use hurra_v.Spi.Frame.{pack, unpack, crc16, crc_loop, crc_byte, crc_bits, crc_bit, body, stored_crc}
use hurra_v.Spi.Frame.RoundTrip.{packed, unpack-pack}
use hurra_v.Spi.Frame.Corruption.{IsBytes, IsError, unpack-set}

abbrev report : List ℕ
report = 1 ∷ 2 ∷ 3 ∷ []

-- The slot of a report fragment with sequence number 7.
abbrev slot : List ℕ
slot = 104 ∷ 2 ∷ 7 ∷ 3 ∷ 1 ∷ 2 ∷ 3 ∷ (replicate 23 0 ++ (89 ∷ 121 ∷ []))

abbrev frame : Frame
frame = record { type = 2; seq = 7; payload = drop off_pay slot; len = 3 }

-- The check value of CRC-16/CCITT-FALSE.
crc16_digits : crc16 (0x31 ∷ 0x32 ∷ 0x33 ∷ 0x34 ∷ 0x35 ∷ 0x36 ∷ 0x37 ∷ 0x38 ∷ 0x39 ∷ []) 9 ≡ 0x29b1
unfolding crc16 crc_loop crc_byte crc_bits crc_bit
crc16_digits = refl

pack-report : pack 2 7 report 3 ≡ ok slot
unfolding pack body crc16 crc_loop crc_byte crc_bits crc_bit
pack-report = refl

unpack-slot : unpack slot ≡ ok frame
unfolding unpack stored_crc crc16 crc_loop crc_byte crc_bits crc_bit
unpack-slot = refl

unpack_errors :
    (unpack (set slot 0 0) ≡ err_sof)
    × (unpack (set slot 3 27) ≡ err_len)
    × (unpack (set slot 29 1) ≡ err_crc)
unfolding unpack stored_crc crc16 crc_loop crc_byte crc_bits crc_bit
unpack_errors = (refl, refl, refl)

slot-IsBytes : IsBytes slot
slot-IsBytes i = get_or-lt 256 slot (omega arith) (omega arith) i

unpack-pack_example :
    (pack 2 7 report 3 ≡ ok (packed 2 7 report 3))
    × (length (packed 2 7 report 3) ≡ slot_size)
    × (f : Frame) × (unpack (packed 2 7 report 3) ≡ ok f)
    × (f.type ≡ 2)
    × (f.seq ≡ 7)
    × (f.len ≡ 3)
    × (take 3 f.payload ≡ take 3 report)
    × (take max_payload f.payload ≡ take 3 report ++ replicate (max_payload - 3) 0)
unpack-pack_example = unpack-pack 2 7 report 3 (omega arith) (omega arith)

unpack-set_example : IsError (unpack (set slot 5 9))
unpack-set_example =
    unpack-set slot slot-IsBytes 5 9 (omega arith) frame refl (omega arith) (omega arith)
      unpack-slot
