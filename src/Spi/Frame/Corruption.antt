-- ===== src/Spi/Frame/Corruption.antt =====
-- One replaced byte anywhere in a valid slot is noticed by `spi_frame_unpack`.
use hurra_v.Base.{ℕ, zero, suc, ◌+◌, ◌*◌, ◌≤◌, ◌<◌}
use hurra_v.Base.{
  ◌≡◌, refl, sym, ap, ◌∙◌, ◌≢◌, ◌⊎◌, inl, inr, arith, List, [], ◌∷◌, length, set, get_or,
}
use hurra_v.Base.{take-set_above, get_or-set_self, get_or-set_ne, bit_or_low_high}
use hurra_v.Spi.Frame.{
  sof, slot_size, max_payload, off_crc, FrameResult, ok, err_sof, err_len, err_crc, Frame,
}
use hurra_v.Spi.Frame.{unpack, stored_crc, crc16, crc_loop}
use hurra_v.Spi.Frame.Crc.{crc16-set}

abbrev pub IsBytes : List ℕ → Type 0
IsBytes xs = (i : ℕ) → get_or xs i 0 < 256

IsBytes-set : (xs : List ℕ) (i v : ℕ) → v < 256 → IsBytes xs → IsBytes (set xs i v)
IsBytes-set [] i v h b j = b j
IsBytes-set (x ∷ xs) zero v h b zero = h
IsBytes-set (x ∷ xs) zero v h b (suc j) = b (suc j)
IsBytes-set (x ∷ xs) (suc i) v h b zero = b 0
IsBytes-set (x ∷ xs) (suc i) v h b (suc j) = IsBytes-set xs i v h (λ k. b (suc k)) j

-- What `unpack` has checked when it succeeds, and what it hands over.
pub record Accepted (slot : List ℕ) (f : Frame) : Type 0 where
  pub starts : get_or slot 0 0 ≡ sof
  pub fits : get_or slot 3 0 ≤ max_payload
  pub sums : crc16 slot off_crc ≡ stored_crc slot

pub unpack-Accepted : (slot : List ℕ) (f : Frame) → unpack slot ≡ ok f → Accepted slot f
unfolding unpack
unpack-Accepted slot f e = ground arith

abbrev pub IsError : FrameResult Frame → Type 0
IsError r = (r ≡ err_sof) ⊎ ((r ≡ err_len) ⊎ (r ≡ err_crc))

IsError-of_not_ok : (r : FrameResult Frame) → ((g : Frame) → r ≢ ok g) → IsError r
IsError-of_not_ok (ok g) h = absurd (h g refl)
IsError-of_not_ok err_sof h = inl refl
IsError-of_not_ok err_len h = inr (inl refl)
IsError-of_not_ok err_crc h = inr (inr refl)

module _ (slot : List ℕ) (bytes : IsBytes slot) (i v : ℕ) (small : v < 256) where
  stored_crc-set_below : i < off_crc → stored_crc (set slot i v) ≡ stored_crc slot
  unfolding stored_crc
  stored_crc-set_below h = rw (
    get_or-set_ne slot i 30 v 0 (omega arith),
    get_or-set_ne slot i (off_crc + 1) v 0 (omega arith),
  )

  crc16-set_above : off_crc ≤ i → crc16 (set slot i v) off_crc ≡ crc16 slot off_crc
  unfolding crc16
  crc16-set_above h = ap (crc_loop 0xffff) (take-set_above off_crc i v slot h)

  stored_crc_lem : (s : List ℕ) → IsBytes s → stored_crc s ≡ get_or s 31 0 * 256 + get_or s 30 0
  unfolding stored_crc
  stored_crc_lem s b =
      rw (bit_or_low_high 8 (get_or s 31 0) (get_or s 30 0) (b 30)) (omega (arith, b 30, b 31))

  still_ok :
      (f : Frame)
      → length slot ≡ slot_size
      → i < slot_size
      → v ≢ get_or slot i 0
      → unpack slot ≡ ok f
      → (g : Frame) → unpack (set slot i v) ≢ ok g
  still_ok f whole inside other valid g still =
      let before = (unpack-Accepted slot f valid).sums in
      let after = (unpack-Accepted (set slot i v) g still).sums in
      elim (place (omega arith)) [
        | inl below ↦ other (
            crc16-set slot off_crc i v below (omega arith) (bytes i) small
              (after ∙ (stored_crc-set_below below ∙ sym before)))
        | inr above ↦ other (field above (sym after ∙ (crc16-set_above (at_field above) ∙ before)))
      ]
    where
      place : i < 32 → (i < off_crc) ⊎ ((i ≡ 30) ⊎ (i ≡ 31))
      place h = ground arith

      at_field : (i ≡ 30) ⊎ (i ≡ 31) → off_crc ≤ i
      at_field h = ground arith

      field :
          (i ≡ 30) ⊎ (i ≡ 31) → stored_crc (set slot i v) ≡ stored_crc slot → v ≡ get_or slot i 0
      field h e = ground (
        arith,
        stored_crc_lem slot bytes,
        stored_crc_lem (set slot i v) (IsBytes-set slot i v small bytes),
        get_or-set_self slot i v 0,
        get_or-set_ne slot i 30 v 0,
        get_or-set_ne slot i 31 v 0,
        bytes 30,
        bytes 31,
      )

  -- A slot of bytes that unpacks no longer does after any one of its bytes is replaced by another
  -- byte (header, payload, unused tail or the CRC itself): `unpack` reports one of its three errors.
  pub unpack-set :
      (f : Frame)
      → length slot ≡ slot_size
      → i < slot_size
      → v ≢ get_or slot i 0
      → unpack slot ≡ ok f
      → IsError (unpack (set slot i v))
  unpack-set f whole inside other valid =
      IsError-of_not_ok (unpack (set slot i v)) (still_ok f whole inside other valid)
