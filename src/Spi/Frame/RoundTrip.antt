-- ===== src/Spi/Frame/RoundTrip.antt =====
-- `spi_frame_unpack` after `spi_frame_pack`, and the sequence gap after lost frames.
use hurra_v.Base.{ℕ, ◌+◌, ◌-◌, ◌/◌, ◌%◌, ◌≤◌, ◌<◌, bit_and}
use hurra_v.Base.{◌≡◌, refl, sym, ap, ◌∙◌, arith, List, [], ◌∷◌, ◌++◌, length, take, drop, ◌↔◌}
use hurra_v.Base.{replicate, length-append, length-take, length-replicate, take-append, take_all}
use hurra_v.Base.{get_or-append, bit_and_mask, bit_or_low_high, append_assoc}
use hurra_v.Spi.Frame.{slot_size, max_payload, off_pay, off_crc, ok, err_len, Frame}
use hurra_v.Spi.Frame.{body, pack, unpack, stored_crc, seq_gap, crc16, crc_loop}
use hurra_v.Spi.Frame.Crc.{crc16-lt}

-- The slot that `pack` writes when the payload fits.
abbrev pub packed : ℕ → ℕ → List ℕ → ℕ → List ℕ
packed type seq payload len =
    let slot = body type seq payload len in
    let crc = crc16 slot off_crc in slot ++ (bit_and crc 0xff ∷ crc / 256 % 256 ∷ [])

module _ (type seq : ℕ) (payload : List ℕ) (len : ℕ) (fits : len ≤ max_payload) where
  pub pack-eq-ok : pack type seq payload len ≡ ok (packed type seq payload len)
  unfolding pack
  pack-eq-ok = ground arith

  module _ (given : len ≤ length payload) where
    length-body : length (body type seq payload len) ≡ off_crc
    unfolding body
    length-body = omega (
      arith,
      length-append (take len payload) (replicate (max_payload - len) 0),
      length-take len payload,
      length-replicate {A = ℕ} (max_payload - len) 0,
    )

    pub length-packed : length (packed type seq payload len) ≡ slot_size
    length-packed =
        let slot = body type seq payload len in
        let crc = crc16 slot off_crc in
        omega (arith, length-body, length-append slot (bit_and crc 0xff ∷ crc / 256 % 256 ∷ []))

    crc16-packed :
        crc16 (packed type seq payload len) off_crc ≡ crc16 (body type seq payload len) off_crc
    unfolding crc16
    crc16-packed =
        let slot = body type seq payload len in
        ap (crc_loop 0xffff) (
          take-append off_crc slot _ length-body
          ∙ sym (take_all off_crc slot (omega (arith, length-body))))

    stored_crc-packed :
        stored_crc (packed type seq payload len) ≡ crc16 (body type seq payload len) off_crc
    unfolding stored_crc
    stored_crc-packed =
        let slot = body type seq payload len in
        let crc = crc16 slot off_crc in
        let small : crc < 0x10000 = crc16-lt slot off_crc in
        let tail = bit_and crc 0xff ∷ crc / 256 % 256 ∷ [] in
        rw
          (
            get_or-append slot tail 30 0 0 (omega (arith, length-body)),
            get_or-append slot tail (off_crc + 1) 1 0 (omega (arith, length-body)),
            bit_and_mask 8 crc,
            bit_or_low_high 8 (crc / 256 % 256) (crc % 256) (omega arith),
          )
          (omega (arith, small))

    payload-packed :
        (take max_payload (drop off_pay (packed type seq payload len))
          ≡ take len payload ++ replicate (max_payload - len) 0)
        × (take len (drop off_pay (packed type seq payload len)) ≡ take len payload)
    unfolding body
    payload-packed =
        let zeros = replicate {A = ℕ} (max_payload - len) 0 in
        (
          take-append max_payload (take len payload ++ zeros) _ (
              omega (
                arith,
                length-append (take len payload) zeros,
                length-take len payload,
                length-replicate {A = ℕ} (max_payload - len) 0,
              )),
          rw (append_assoc (take len payload))
              (take-append len (take len payload) _ (omega (arith, length-take len payload))),
        )

    -- A packed slot has 32 bytes and unpacks: to the type, the sequence number and the length that
    -- were packed, with the payload bytes in place and zeros after them.
    pub unpack-pack :
        (pack type seq payload len ≡ ok (packed type seq payload len))
        × (length (packed type seq payload len) ≡ slot_size)
        × (f : Frame) × (unpack (packed type seq payload len) ≡ ok f)
        × (f.type ≡ type)
        × (f.seq ≡ seq)
        × (f.len ≡ len)
        × (take len f.payload ≡ take len payload)
        × (take max_payload f.payload ≡ take len payload ++ replicate (max_payload - len) 0)
    unfolding unpack body
    unpack-pack = (
      pack-eq-ok,
      length-packed,
      record {
        type = type;
        seq = seq;
        payload = drop off_pay (packed type seq payload len);
        len = len;
      },
      ground (arith, crc16-packed, stored_crc-packed),
      refl,
      refl,
      refl,
      payload-packed.1,
      payload-packed.0,
    )

-- A length over 26 is refused, and only that.
pub pack-eq-err_len_iff :
    (type seq : ℕ) (payload : List ℕ) (len : ℕ)
    → (pack type seq payload len ≡ err_len) ↔ (max_payload < len)
unfolding pack
pack-eq-err_len_iff type seq payload len = (λ e. ground arith, λ h. ground arith)

-- Of a frame that comes `k` places after the one before it was expected, with `k` below 255, the
-- gap is `k`; a repeat of the frame has no gap.
pub seq_gap_lost :
    (prev k : ℕ)
    → prev < 256
    → k < 255
    → (seq_gap prev ((prev + 1 + k) % 256) ≡ k) × (seq_gap prev prev ≡ 0)
unfolding seq_gap
seq_gap_lost prev k hp hk = (ground arith, ground arith)
