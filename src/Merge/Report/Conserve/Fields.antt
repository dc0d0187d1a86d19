-- ===== src/Merge/Report/Conserve/Fields.antt =====
-- What a field of the report takes, and what it leaves: src/usb_merge.c, usb_merge_report_fast.
use hurra_v.Base.{
  ℕ, ◌+◌, ◌*◌, ◌^◌, ◌≤◌, ◌<◌, ◌≡◌, ◌⊎◌, inl, inr, refl, ap, ◌∙◌, sym, subst, arith, Bool, true,
  false, not, ◌&&◌, bit_or,
}
use hurra_v.Base.{List, get_or, length, ◌==◌, if◌then◌else◌, Bool-cases}
use hurra_v.Base.Int.{ℤ, pos, negsuc, plus, minus, ◌+ℤ◌, ◌-ℤ◌, limit, is_zero, wrap, of_word}
use hurra_v.Humanize.Laws.{IsFrame}
use hurra_v.Hid.{MouseLayout}
use hurra_v.Hid.Field.{read_at}
use hurra_v.Hid.Field.Whole.{Fits, width, length-write_at, read_at-write_at, read_at_apart}
use hurra_v.Merge.Report.{fast_axis, fast_wheel, wheel_left}

-- The maximum of an axis on whole bytes.
abbrev pub most : Bool → ℤ
most true = pos 0x7fff
most false = pos 0x7f

word8-Fits : (x : ℕ) → Fits false (of_word 8 x)
word8-Fits x = ground arith

word16-Fits : (x : ℕ) → Fits true (of_word 16 x)
word16-Fits x = ground arith

read_at-Fits : (wide : Bool) (buf : List ℕ) (i : ℕ) → Fits wide (read_at wide buf i)
read_at-Fits true buf i = word16-Fits (bit_or (get_or buf i 0) (get_or buf (i + 1) 0 * 2 ^ 8))
read_at-Fits false buf i = word8-Fits (get_or buf i 0)

-- The field of the sum fits, and what it could not take fits a word.
limit_lem :
    (wide : Bool) (r inj : ℤ)
    → Fits wide r
    → IsFrame inj
    → Fits wide (limit (most wide) (r +ℤ inj))
      × (wrap 16 (inj -ℤ (limit (most wide) (r +ℤ inj) -ℤ r)) +ℤ (limit (most wide) (r +ℤ inj) -ℤ r)
          ≡ inj)
      × (wrap 8 (inj -ℤ (limit (most wide) (r +ℤ inj) -ℤ r)) +ℤ (limit (most wide) (r +ℤ inj) -ℤ r)
          ≡ inj)
limit_lem true (pos n) (pos k) f g = ground arith
limit_lem true (pos n) (negsuc k) f g = ground arith
limit_lem true (negsuc n) (pos k) f g = ground arith
limit_lem true (negsuc n) (negsuc k) f g = ground arith
limit_lem false (pos n) (pos k) f g = ground arith
limit_lem false (pos n) (negsuc k) f g = ground arith
limit_lem false (negsuc n) (pos k) f g = ground arith
limit_lem false (negsuc n) (negsuc k) f g = ground arith

-- At most `n` in magnitude.
abbrev pub IsWithin : ℕ → ℤ → Type 0
IsWithin n v = (plus v ≤ n) × (minus v ≤ n)

small_lem :
    (wide : Bool) (r inj : ℤ)
    → Fits wide r
    → IsFrame inj
    → IsWithin 128 (limit (most wide) (r +ℤ inj) -ℤ r)
small_lem true (pos n) (pos k) f g = ground arith
small_lem true (pos n) (negsuc k) f g = ground arith
small_lem true (negsuc n) (pos k) f g = ground arith
small_lem true (negsuc n) (negsuc k) f g = ground arith
small_lem false (pos n) (pos k) f g = ground arith
small_lem false (pos n) (negsuc k) f g = ground arith
small_lem false (negsuc n) (pos k) f g = ground arith
small_lem false (negsuc n) (negsuc k) f g = ground arith

-- An axis changes its field by at most 128.
pub axis_small :
    (wide : Bool) (i : ℕ) (top inj : ℤ) (report : List ℕ)
    → top ≡ most wide
    → IsFrame inj
    → IsWithin 128 (fast_axis wide i top inj report).1
unfolding fast_axis
axis_small wide i top inj report e g =
    subst (λ q. IsWithin 128 (limit q (read_at wide report i +ℤ inj) -ℤ read_at wide report i))
      (sym e) (small_lem wide (read_at wide report i) inj (read_at-Fits wide report i) g)

add_back : (a b : ℤ) → b +ℤ (a -ℤ b) ≡ a
add_back a b = ground arith

-- One axis: the field changes by what the axis says it did, and the rest can be returned.
axis_lem :
    (wide : Bool) (i : ℕ) (inj : ℤ) (report : List ℕ)
    → IsFrame inj
    → i + width wide ≤ length report
    → (read_at wide (fast_axis wide i (most wide) inj report).0 i
        ≡ read_at wide report i +ℤ (fast_axis wide i (most wide) inj report).1)
      × (wrap 16 (inj -ℤ (fast_axis wide i (most wide) inj report).1)
            +ℤ (fast_axis wide i (most wide) inj report).1
          ≡ inj)
      × (wrap 8 (inj -ℤ (fast_axis wide i (most wide) inj report).1)
            +ℤ (fast_axis wide i (most wide) inj report).1
          ≡ inj)
      × (length (fast_axis wide i (most wide) inj report).0 ≡ length report)
unfolding fast_axis
axis_lem wide i inj report g h =
    let r = read_at wide report i in
    let merged = limit (most wide) (r +ℤ inj) in
    let l = limit_lem wide r inj (read_at-Fits wide report i) g in
    (
      read_at-write_at wide report i merged h l.0 ∙ sym (add_back merged r),
      l.1,
      l.2,
      length-write_at wide report i merged,
    )

abbrev pub AxisLaws : Bool → ℕ → ℤ → ℤ → List ℕ → Type 0
AxisLaws wide i top inj report =
    (read_at wide (fast_axis wide i top inj report).0 i
      ≡ read_at wide report i +ℤ (fast_axis wide i top inj report).1)
    × (wrap 16 (inj -ℤ (fast_axis wide i top inj report).1) +ℤ (fast_axis wide i top inj report).1
        ≡ inj)
    × (wrap 8 (inj -ℤ (fast_axis wide i top inj report).1) +ℤ (fast_axis wide i top inj report).1
        ≡ inj)
    × (length (fast_axis wide i top inj report).0 ≡ length report)

pub axis_laws :
    (wide : Bool) (i : ℕ) (top inj : ℤ) (report : List ℕ)
    → top ≡ most wide
    → IsFrame inj
    → i + width wide ≤ length report
    → AxisLaws wide i top inj report
axis_laws wide i top inj report e g h =
    subst (λ q. AxisLaws wide i q inj report) (sym e) (axis_lem wide i inj report g h)

-- An axis leaves a field elsewhere.
pub axis_apart :
    (wide wide' : Bool) (i k : ℕ) (max inj : ℤ) (report : List ℕ)
    → (k + width wide' ≤ i) ⊎ (i + width wide ≤ k)
    → read_at wide (fast_axis wide' k max inj report).0 i ≡ read_at wide report i
unfolding fast_axis
axis_apart wide wide' i k max inj report apart =
    read_at_apart wide wide' report i k (limit max (read_at wide' report k +ℤ inj)) apart

-- Two fields that share no byte.
abbrev pub Apart : ℕ → ℕ → ℕ → ℕ → Type 0
Apart i n k n' = (k + n' ≤ i) ⊎ (i + n ≤ k)

-- A layout of whole bytes within `len` bytes: the button byte, the axes and the wheel share no byte.
pub record IsSpread (l : MouseLayout) (len : ℕ) : Type 0 where
  pub x_most : l.x_max ≡ most l.x_is16
  pub y_most : l.y_max ≡ most l.y_is16
  pub w_most : l.w_max ≡ most l.w_is16
  pub x_room : l.x_byte + width l.x_is16 ≤ len
  pub y_room : l.y_byte + width l.y_is16 ≤ len
  pub w_room : (l.w_byte == 0xff) ≡ false → l.w_byte + width l.w_is16 ≤ len
  pub x_button : (l.data_off < l.x_byte) ⊎ (l.x_byte + width l.x_is16 ≤ l.data_off)
  pub y_button : (l.data_off < l.y_byte) ⊎ (l.y_byte + width l.y_is16 ≤ l.data_off)
  pub w_button : (l.data_off < l.w_byte) ⊎ (l.w_byte + width l.w_is16 ≤ l.data_off)
  pub x_y : Apart l.x_byte (width l.x_is16) l.y_byte (width l.y_is16)
  pub x_w : Apart l.x_byte (width l.x_is16) l.w_byte (width l.w_is16)
  pub y_w : Apart l.y_byte (width l.y_is16) l.w_byte (width l.w_is16)

pub Apart-flip : (i n k n' : ℕ) → Apart i n k n' → Apart k n' i n
Apart-flip i n k n' a = ground (arith, a)

pub wheel_untouched :
    (wide : Bool) (i : ℕ) (l : MouseLayout) (wheel : ℤ) (report : List ℕ)
    → Apart i (width wide) l.w_byte (width l.w_is16)
    → read_at wide (fast_wheel l wheel report).0 i ≡ read_at wide report i
unfolding fast_wheel
wheel_untouched wide i l wheel report a =
    elim (Bool-cases (not (l.w_byte == 0xff) && not (is_zero wheel))) [
      | inl e ↦ rw e (axis_apart wide l.w_is16 i l.w_byte l.w_max wheel report a)
      | inr e ↦ rw e refl
    ]

pub regroup : (r d w : ℤ) → r +ℤ d +ℤ w ≡ r +ℤ (w +ℤ d)
regroup r d w = ground arith

-- The wheel field, and what stays of the wheel.
wheel_conserves :
    (l : MouseLayout) (wheel : ℤ) (report : List ℕ)
    → l.w_max ≡ most l.w_is16
    → IsFrame wheel
    → ((l.w_byte == 0xff) ≡ false → l.w_byte + width l.w_is16 ≤ length report)
    → (l.w_byte == 0xff) ≡ false
    → read_at l.w_is16 (fast_wheel l wheel report).0 l.w_byte +ℤ (fast_wheel l wheel report).1
      ≡ read_at l.w_is16 report l.w_byte +ℤ wheel
unfolding fast_wheel
wheel_conserves l wheel report e f room b = elim (Bool-cases (is_zero wheel)) [
  | inl z ↦ rw (b, z) refl
  | inr z ↦
      let a = axis_laws l.w_is16 l.w_byte l.w_max wheel report e f (room b) in
      let done = (fast_axis l.w_is16 l.w_byte l.w_max wheel report).1 in
      rw (b, z)
        (ap (λ (q : ℤ). q +ℤ wheel_left wheel done) a.0
          ∙ (regroup (read_at l.w_is16 report l.w_byte) done (wheel_left wheel done)
              ∙ ap (λ (q : ℤ). read_at l.w_is16 report l.w_byte +ℤ q) a.2))
]

wheel_absent_lem :
    (l : MouseLayout) (wheel : ℤ) (report : List ℕ)
    → (l.w_byte == 0xff) ≡ true
    → fast_wheel l wheel report ≡ (report, wheel)
unfolding fast_wheel
wheel_absent_lem l wheel report b = rw b refl

-- The wheel field, 0 where the report has none on whole bytes.
abbrev pub wheel_in : MouseLayout → List ℕ → ℤ
wheel_in l report = if l.w_byte == 0xff then pos 0 else read_at l.w_is16 report l.w_byte

pub wheel_total :
    (l : MouseLayout) (wheel : ℤ) (report before : List ℕ)
    → l.w_max ≡ most l.w_is16
    → IsFrame wheel
    → ((l.w_byte == 0xff) ≡ false → l.w_byte + width l.w_is16 ≤ length report)
    → read_at l.w_is16 report l.w_byte ≡ read_at l.w_is16 before l.w_byte
    → wheel_in l (fast_wheel l wheel report).0 +ℤ (fast_wheel l wheel report).1
      ≡ wheel_in l before +ℤ wheel
wheel_total l wheel report before e f room same = elim (Bool-cases (l.w_byte == 0xff)) [
  | inl b ↦ rw (b, wheel_absent_lem l wheel report b) refl
  | inr b ↦ rw b (wheel_conserves l wheel report e f room b ∙ ap (λ (q : ℤ). q +ℤ wheel) same)
]
