-- ===== src/Spi/Frame/Crc.antt =====
-- `spi_frame_crc16` loses nothing: it is 16 bits wide, and one step is injective in the register
-- and in the data byte.
use hurra_v.Base.{ℕ, zero, suc, ◌+◌, ◌-◌, ◌*◌, ◌%◌, ◌^◌, ◌≤◌, ◌<◌, bit_xor}
use hurra_v.Base.{
  ◌≡◌, sym, ap, ◌∙◌, ◌⊎◌, inl, inr, arith, List, [], ◌∷◌, length, set, take, get_or, length-take,
  take-set, get_or-take,
}
use hurra_v.Base.{
  bit_and_bit, bit_xor_inj_left, bit_xor_inj_right, bit_xor-lt, bit_xor_above, bit_xor_parts,
}
use Prim.Native.Nat.{differ}
use hurra_v.Spi.Frame.{crc_bit, crc_bits, crc_byte, crc_loop, crc16}

-- The two branches, by the value of the register.
crc_bit_low : (c : ℕ) → c < 0x8000 → crc_bit c ≡ c * 2
unfolding crc_bit
crc_bit_low c h = ground (arith, bit_and_bit 15 c)

crc_bit_high : (c : ℕ) → 0x8000 ≤ c → c < 0x10000 → crc_bit c ≡ bit_xor (c * 2 - 0x10000) 0x1021
unfolding crc_bit
crc_bit_high c h k =
    let a = c * 2 - 0x10000 in
    let above = bit_xor_above 16 a 0x1021 (omega arith) (omega arith) in
    let small = bit_xor-lt 16 a 0x1021 (omega arith) (omega arith) in
    let shifted : c * 2 ≡ 2 ^ 16 + a = omega arith in
    let sum : bit_xor (c * 2) 0x1021 ≡ 0x10000 + bit_xor a 0x1021 =
      ap (λ (t : ℕ). bit_xor t 0x1021) shifted ∙ above in
    let wraps : bit_xor (c * 2) 0x1021 % 0x10000 ≡ bit_xor a 0x1021 =
      ap (λ (t : ℕ). t % 0x10000) sum ∙ omega (arith, small) in
    ground (arith, bit_and_bit 15 c, wraps)

low_or_high : (c : ℕ) → (c < 0x8000) ⊎ (0x8000 ≤ c)
low_or_high c = ground arith

crc_bit-lt : (c : ℕ) → c < 0x10000 → crc_bit c < 0x10000
crc_bit-lt c h = elim (low_or_high c) [
  | inl l ↦ omega (arith, crc_bit_low c l)
  | inr g ↦
      rw (crc_bit_high c g h) (bit_xor-lt 16 (c * 2 - 0x10000) 0x1021 (omega arith) (omega arith))
]

-- The lowest digit of the result tells the branch: the polynomial is odd.
crc_bit_parity : (c : ℕ) → 0x8000 ≤ c → c < 0x10000 → crc_bit c % 2 ≡ 1
crc_bit_parity c h k =
    rw (crc_bit_high c h k) (
      (bit_xor_parts (c * 2 - 0x10000) 0x1021).1 ∙ ap (λ (t : ℕ). differ t 1) {y = 0} (omega arith))

crc_bit_inj : (c d : ℕ) → c < 0x10000 → d < 0x10000 → crc_bit c ≡ crc_bit d → c ≡ d
crc_bit_inj c d hc hd e = elim (low_or_high c) [
  | inl lc ↦ elim (low_or_high d) [
    | inl ld ↦ omega (arith, crc_bit_low c lc, crc_bit_low d ld)
    | inr gd ↦ absurd (omega (arith, crc_bit_low c lc, crc_bit_parity d gd hd))
  ]
  | inr gc ↦ elim (low_or_high d) [
    | inl ld ↦ absurd (omega (arith, crc_bit_low d ld, crc_bit_parity c gc hc))
    | inr gd ↦
        let back =
          bit_xor_inj_right 16 (c * 2 - 0x10000) (d * 2 - 0x10000) 0x1021 (omega arith)
            (omega arith) (omega arith) (sym (crc_bit_high c gc hc) ∙ (e ∙ crc_bit_high d gd hd)) in
        omega (arith, back)
  ]
]

crc_bits-lt : (n c : ℕ) → c < 0x10000 → crc_bits n c < 0x10000
unfolding crc_bits
crc_bits-lt zero c h = h
crc_bits-lt (suc n) c h = crc_bits-lt n (crc_bit c) (crc_bit-lt c h)

crc_bits_inj : (n c d : ℕ) → c < 0x10000 → d < 0x10000 → crc_bits n c ≡ crc_bits n d → c ≡ d
unfolding crc_bits
crc_bits_inj zero c d hc hd e = e
crc_bits_inj (suc n) c d hc hd e =
    crc_bit_inj c d hc hd
      (crc_bits_inj n (crc_bit c) (crc_bit d) (crc_bit-lt c hc) (crc_bit-lt d hd) e)

entered-lt : (c x : ℕ) → c < 0x10000 → bit_xor c (x * 256 % 0x10000) < 0x10000
entered-lt c x h = bit_xor-lt 16 c (x * 256 % 0x10000) h (omega arith)

crc_byte-lt : (c x : ℕ) → c < 0x10000 → crc_byte c x < 0x10000
unfolding crc_byte
crc_byte-lt c x h = crc_bits-lt 8 (bit_xor c (x * 256 % 0x10000)) (entered-lt c x h)

-- For one data byte, different registers stay different.
crc_byte_inj : (c d x : ℕ) → c < 0x10000 → d < 0x10000 → crc_byte c x ≡ crc_byte d x → c ≡ d
unfolding crc_byte
crc_byte_inj c d x hc hd e =
    let t = x * 256 % 0x10000 in
    let same =
      crc_bits_inj 8 (bit_xor c t) (bit_xor d t) (entered-lt c x hc) (entered-lt d x hd) e in
    bit_xor_inj_right 16 c d t hc hd (omega arith) same

-- For one register, different data bytes give different registers.
crc_byte_inj_data :
    (c x y : ℕ) → c < 0x10000 → x < 256 → y < 256 → crc_byte c x ≡ crc_byte c y → x ≡ y
unfolding crc_byte
crc_byte_inj_data c x y hc hx hy e =
    let t = x * 256 % 0x10000 in
    let u = y * 256 % 0x10000 in
    let same =
      crc_bits_inj 8 (bit_xor c t) (bit_xor c u) (entered-lt c x hc) (entered-lt c y hc) e in
    let cancel : t ≡ u = bit_xor_inj_left 16 t u c (omega arith) (omega arith) hc same in
    omega (arith, cancel)

crc_loop-lt : (c : ℕ) (xs : List ℕ) → c < 0x10000 → crc_loop c xs < 0x10000
unfolding crc_loop
crc_loop-lt c [] h = h
crc_loop-lt c (x ∷ xs) h = crc_loop-lt (crc_byte c x) xs (crc_byte-lt c x h)

pub crc16-lt : (bytes : List ℕ) (len : ℕ) → crc16 bytes len < 0x10000
unfolding crc16
crc16-lt bytes len = crc_loop-lt 0xffff (take len bytes) (omega arith)

crc_loop_inj :
    (c d : ℕ) (xs : List ℕ) → c < 0x10000 → d < 0x10000 → crc_loop c xs ≡ crc_loop d xs → c ≡ d
unfolding crc_loop
crc_loop_inj c d [] hc hd e = e
crc_loop_inj c d (x ∷ xs) hc hd e =
    crc_byte_inj c d x hc hd
      (crc_loop_inj (crc_byte c x) (crc_byte d x) xs (crc_byte-lt c x hc) (crc_byte-lt d x hd) e)

crc_loop-set :
    (c : ℕ) (xs : List ℕ) (i v : ℕ)
    → c < 0x10000
    → i < length xs
    → get_or xs i 0 < 256
    → v < 256
    → crc_loop c (set xs i v) ≡ crc_loop c xs
    → v ≡ get_or xs i 0
unfolding crc_loop
crc_loop-set c [] i v hc hi hx hv e = absurd (omega arith)
crc_loop-set c (x ∷ xs) zero v hc hi hx hv e =
    crc_byte_inj_data c v x hc hv hx
      (crc_loop_inj (crc_byte c v) (crc_byte c x) xs (crc_byte-lt c v hc) (crc_byte-lt c x hc) e)
crc_loop-set c (x ∷ xs) (suc i) v hc hi hx hv e =
    crc_loop-set (crc_byte c x) xs i v (crc_byte-lt c x hc) (omega arith) hx hv e

-- A checksummed byte that is replaced by another one changes the checksum.
pub crc16-set :
    (bytes : List ℕ) (len i v : ℕ)
    → i < len
    → len ≤ length bytes
    → get_or bytes i 0 < 256
    → v < 256
    → crc16 (set bytes i v) len ≡ crc16 bytes len
    → v ≡ get_or bytes i 0
unfolding crc16
crc16-set bytes len i v hi hl hx hv e =
    let same = sym (ap (crc_loop 0xffff) (take-set len i v bytes hi)) ∙ e in
    crc_loop-set 0xffff (take len bytes) i v (omega arith) (omega (arith, length-take len bytes))
      (rw (get_or-take len i 0 bytes hi) hx) hv same
    ∙ get_or-take len i 0 bytes hi
