-- ===== src/Hid/Field/Whole.antt =====
-- Fields of whole bytes: what is written is read, and a field elsewhere stays.
use hurra_v.Base.{
  ℕ, ◌+◌, ◌*◌, ◌/◌, ◌%◌, ◌^◌, ◌≤◌, ◌<◌, ◌≡◌, ◌⊎◌, ap, ap₂, ◌∙◌, arith, Bool, true, false, bit_or,
  bit_or_low_high,
}
use hurra_v.Base.{List, set, length, length-set, get_or-set_self, get_or-set_ne}
use hurra_v.Base.Int.{ℤ, pos, negsuc, plus, minus, of_word, to_word, shr}
use hurra_v.Hid.Field.{read_at, write_at, hid_layout_read_field, write_report_field}

-- The values of an `int16_t` or an `int8_t`.
abbrev pub Fits : Bool → ℤ → Type 0
Fits true v = (plus v ≤ 0x7fff) × (minus v ≤ 0x8000)
Fits false v = (plus v ≤ 0x7f) × (minus v ≤ 0x80)

abbrev pub width : Bool → ℕ
width true = 2
width false = 1

word8_back : (v : ℤ) → Fits false v → of_word 8 (to_word 8 v) ≡ v
word8_back (pos n) h = ground (arith, h)
word8_back (negsuc n) h = ground (arith, h)

word16_back : (v : ℤ) → Fits true v → of_word 16 (to_word 8 (shr v 8) * 2 ^ 8 + to_word 8 v) ≡ v
word16_back (pos n) h = ground (arith, h)
word16_back (negsuc n) h = ground (arith, h)

to_word8-lt : (v : ℤ) → to_word 8 v < 2 ^ 8
to_word8-lt (pos n) = omega arith
to_word8-lt (negsuc n) = omega arith

pub length-write_at :
    (wide : Bool) (buf : List ℕ) (i : ℕ) (v : ℤ) → length (write_at wide buf i v) ≡ length buf
length-write_at true buf i v =
    length-set (set buf i (to_word 8 v)) (i + 1) (to_word 8 (shr v 8))
    ∙ length-set buf i (to_word 8 v)
length-write_at false buf i v = length-set buf i (to_word 8 v)

pub read_at-write_at :
    (wide : Bool) (buf : List ℕ) (i : ℕ) (v : ℤ)
    → i + width wide ≤ length buf
    → Fits wide v
    → read_at wide (write_at wide buf i v) i ≡ v
read_at-write_at false buf i v h f =
    ap (of_word 8) (get_or-set_self buf i (to_word 8 v) 0 (omega arith)) ∙ word8_back v f
read_at-write_at true buf i v h f =
    let first = set buf i (to_word 8 v) in
    let low =
      get_or-set_ne first (i + 1) i (to_word 8 (shr v 8)) 0 (λ e. omega (arith, e))
      ∙ get_or-set_self buf i (to_word 8 v) 0 (omega arith) in
    let high =
      get_or-set_self first (i + 1) (to_word 8 (shr v 8)) 0
        (omega (arith, length-set buf i (to_word 8 v), h)) in
    ap₂ (λ (a b : ℕ). of_word 16 (bit_or a (b * 2 ^ 8))) low high
    ∙ (ap (of_word 16) (bit_or_low_high 8 (to_word 8 (shr v 8)) (to_word 8 v) (to_word8-lt v))
        ∙ word16_back v f)

-- A byte that a field does not have.
pub read_at-set :
    (wide : Bool) (buf : List ℕ) (i k b : ℕ)
    → (k < i) ⊎ (i + width wide ≤ k)
    → read_at wide (set buf k b) i ≡ read_at wide buf i
read_at-set false buf i k b apart =
    ap (of_word 8) (get_or-set_ne buf k i b 0 (λ e. ground (arith, e, apart)))
read_at-set true buf i k b apart =
    ap₂ (λ (a b : ℕ). of_word 16 (bit_or a (b * 2 ^ 8)))
      (get_or-set_ne buf k i b 0 (λ e. ground (arith, e, apart)))
      (get_or-set_ne buf k (i + 1) b 0 (λ e. ground (arith, e, apart)))

pub read_at_apart :
    (wide wide' : Bool) (buf : List ℕ) (i k : ℕ) (v : ℤ)
    → (k + width wide' ≤ i) ⊎ (i + width wide ≤ k)
    → read_at wide (write_at wide' buf k v) i ≡ read_at wide buf i
read_at_apart wide false buf i k v apart =
    read_at-set wide buf i k (to_word 8 v) (ground (arith, apart))
read_at_apart wide true buf i k v apart =
    read_at-set wide (set buf k (to_word 8 v)) i (k + 1) (to_word 8 (shr v 8))
      (ground (arith, apart))
    ∙ read_at-set wide buf i k (to_word 8 v) (ground (arith, apart))

abbrev pub size_of : Bool → ℕ
size_of true = 16
size_of false = 8

-- The bit-field routines on a field of whole bytes.
pub read_field_whole :
    (wide : Bool) (buf : List ℕ) (len bit off : ℕ)
    → bit % 8 ≡ 0
    → bit + off * 8 < 2 ^ 16
    → bit / 8 + off + width wide ≤ len
    → hid_layout_read_field buf len bit (size_of wide) off ≡ read_at wide buf (bit / 8 + off)
unfolding hid_layout_read_field
read_field_whole true buf len bit off a b h =
    let e : (bit + off * 8) % 2 ^ 16 % 8 ≡ 0 = omega arith in
    let f : (bit + off * 8) % 2 ^ 16 / 8 ≡ bit / 8 + off = omega arith in
    rw (e, f) (ground (arith, h))
read_field_whole false buf len bit off a b h =
    let e : (bit + off * 8) % 2 ^ 16 % 8 ≡ 0 = omega arith in
    let f : (bit + off * 8) % 2 ^ 16 / 8 ≡ bit / 8 + off = omega arith in
    rw (e, f) (ground (arith, h))

pub write_field_whole :
    (wide : Bool) (buf : List ℕ) (len bit off : ℕ) (v : ℤ)
    → bit % 8 ≡ 0
    → bit + off * 8 < 2 ^ 16
    → bit / 8 + off + width wide ≤ len
    → write_report_field buf len bit (size_of wide) off v ≡ write_at wide buf (bit / 8 + off) v
unfolding write_report_field
write_field_whole true buf len bit off v a b h =
    let e : (bit + off * 8) % 2 ^ 16 % 8 ≡ 0 = omega arith in
    let f : (bit + off * 8) % 2 ^ 16 / 8 ≡ bit / 8 + off = omega arith in
    rw (e, f) (ground (arith, h))
write_field_whole false buf len bit off v a b h =
    let e : (bit + off * 8) % 2 ^ 16 % 8 ≡ 0 = omega arith in
    let f : (bit + off * 8) % 2 ^ 16 / 8 ≡ bit / 8 + off = omega arith in
    rw (e, f) (ground (arith, h))
