-- ===== src/Merge/Report/Plain.antt =====
-- The layouts that the fast path is for.
use hurra_v.Base.{
  ℕ, ◌+◌, ◌*◌, ◌/◌, ◌%◌, ◌^◌, ◌≤◌, ◌<◌, ◌≡◌, ◌⊎◌, inl, inr, refl, sym, subst, arith, Bool, true,
  false, not, ◌&&◌,
}
use hurra_v.Base.{◌==◌, Bool-cases}
use hurra_v.Hid.{MouseLayout}
use hurra_v.Hid.Derive.{
  derive, limits, is_fast, wheel_is_fast, is_whole, with_axes, with_wheel, byte_of,
}
use hurra_v.Hid.Field.Whole.{size_of}

-- A field of whole bytes, in both descriptions.
pub record IsPlaced (wide : Bool) (byte bit size off : ℕ) : Type 0 where
  pub aligned : bit % 8 ≡ 0
  pub sized : size ≡ size_of wide
  pub placed : byte ≡ bit / 8 + off
  pub word : bit + off * 8 < 2 ^ 16

-- The wheel of the layout: on whole bytes of the same report, or not in this report at all.
pub data Wheel (l : MouseLayout) : Type 0 where
  wheel_here :
      (l.w_byte == 0xff) ≡ false
      → (l.wheel_bit == 0xffff) ≡ false
      → l.wheel_report_id ≡ l.report_id
      → IsPlaced l.w_is16 l.w_byte l.wheel_bit l.wheel_size l.data_off
      → Wheel l
  wheel_absent :
      (l.w_byte == 0xff) ≡ true
      → (not (l.wheel_bit == 0xffff) && (l.report_id == l.wheel_report_id)) ≡ false
      → Wheel l

pub record IsPlain (l : MouseLayout) : Type 0 where
  pub x_placed : IsPlaced l.x_is16 l.x_byte l.x_bit l.x_size l.data_off
  pub y_placed : IsPlaced l.y_is16 l.y_byte l.y_bit l.y_size l.data_off
  pub together : l.y_report_id ≡ l.report_id
  pub wheel : Wheel l

whole_size : (size : ℕ) → is_whole size ≡ true → size ≡ size_of (size == 16)
whole_size size h = elim (Bool-cases (size == 16)) [
  | inl e ↦ rw e (ground (arith, e))
  | inr e ↦ rw e (ground (arith, e, h))
]

abbrev off_of : MouseLayout → ℕ
off_of found = (limits found).data_off

off-le : (found : MouseLayout) → off_of found ≤ 1
unfolding limits
off-le found = ground arith

place :
    (bit size off : ℕ)
    → (bit % 8 == 0) ≡ true
    → is_whole size ≡ true
    → bit < 2032
    → off ≤ 1
    → IsPlaced (size == 16) (byte_of bit off) bit size off
unfolding byte_of
place bit size off a s b o = record {
  aligned = ground (arith, a);
  sized = whole_size size s;
  placed = omega (arith, b, o);
  word = omega (arith, b, o);
}

byte_of-ne : (bit off : ℕ) → bit < 2032 → off ≤ 1 → (byte_of bit off == 0xff) ≡ false
unfolding byte_of
byte_of-ne bit off b o = ground (arith, b, o)

fast_parts :
    (l : MouseLayout)
    → is_fast l ≡ true
    → ((l.x_bit % 8 == 0) ≡ true)
      × ((l.y_bit % 8 == 0) ≡ true)
      × (is_whole l.x_size ≡ true)
      × (is_whole l.y_size ≡ true)
      × (l.report_id ≡ l.y_report_id)
unfolding is_fast
fast_parts l h = ground (arith, h)

wheel_parts :
    (l : MouseLayout)
    → wheel_is_fast l ≡ true
    → ((l.wheel_bit == 0xffff) ≡ false)
      × ((l.wheel_bit % 8 == 0) ≡ true)
      × (is_whole l.wheel_size ≡ true)
      × (l.wheel_report_id ≡ l.report_id)
unfolding wheel_is_fast
wheel_parts l h = ground (arith, h)

abbrev axes_of : MouseLayout → MouseLayout
axes_of l = record l {
  fast_path = true;
  x_byte = byte_of l.x_bit l.data_off;
  y_byte = byte_of l.y_bit l.data_off;
  x_is16 = l.x_size == 16;
  y_is16 = l.y_size == 16;
}

derive-eq-wheel :
    (found : MouseLayout)
    → is_fast (limits found) ≡ true
    → wheel_is_fast (limits found) ≡ true
    → derive found ≡ record (axes_of (limits found)) {
      w_byte = byte_of (limits found).wheel_bit (limits found).data_off;
      w_is16 = (limits found).wheel_size == 16;
    }
unfolding derive with_axes with_wheel wheel_is_fast
derive-eq-wheel found f w = rw (f, w) refl

derive-eq-axes :
    (found : MouseLayout)
    → is_fast (limits found) ≡ true
    → wheel_is_fast (limits found) ≡ false
    → derive found ≡ axes_of (limits found)
unfolding derive with_axes with_wheel wheel_is_fast
derive-eq-axes found f w = rw (f, w) refl

-- What the parser found, where the fast path is not cheated of the wheel.
pub record IsFound (found : MouseLayout) : Type 0 where
  pub fast : is_fast (limits found) ≡ true
  pub x_low : found.x_bit < 2032
  pub y_low : found.y_bit < 2032
  pub wheel_fits :
      ((wheel_is_fast (limits found) ≡ true) × (found.wheel_bit < 2032))
      ⊎ ((not (found.wheel_bit == 0xffff) && (found.report_id == found.wheel_report_id)) ≡ false)

limits_kept :
    (found : MouseLayout)
    → ((limits found).x_bit ≡ found.x_bit)
      × ((limits found).y_bit ≡ found.y_bit)
      × ((limits found).wheel_bit ≡ found.wheel_bit)
      × ((limits found).w_byte ≡ 0xff)
      × ((limits found).report_id ≡ found.report_id)
      × ((limits found).wheel_report_id ≡ found.wheel_report_id)
unfolding limits
limits_kept found = (refl, refl, refl, refl, refl, refl)

not_fast_wheel :
    (l : MouseLayout)
    → (not (l.wheel_bit == 0xffff) && (l.report_id == l.wheel_report_id)) ≡ false
    → wheel_is_fast l ≡ false
unfolding wheel_is_fast
not_fast_wheel l h = ground (arith, h)

pub derive-IsPlain : (found : MouseLayout) → IsFound found → IsPlain (derive found)
derive-IsPlain found g =
    let l = limits found in
    let k = limits_kept found in
    let p = fast_parts l g.fast in
    let o = off-le found in
    let x = place l.x_bit l.x_size l.data_off p.0 p.2 (subst (λ q. q < 2032) (sym k.0) g.x_low) o in
    let y = place l.y_bit l.y_size l.data_off p.1 p.3 (subst (λ q. q < 2032) (sym k.1) g.y_low) o in
    elim g.wheel_fits [
      | inl w ↦
          let v = wheel_parts l w.0 in
          let low = subst (λ q. q < 2032) (sym k.2) w.1 in
          subst IsPlain (sym (derive-eq-wheel found g.fast w.0)) (record {
            x_placed = x;
            y_placed = y;
            together = sym p.4;
            wheel =
                wheel_here (byte_of-ne l.wheel_bit l.data_off low o) v.0 v.3
                  (place l.wheel_bit l.wheel_size l.data_off v.1 v.2 low o);
          })
      | inr w ↦
          let v : (not (l.wheel_bit == 0xffff) && (l.report_id == l.wheel_report_id)) ≡ false =
            rw (k.2, k.4, k.5) w in
          subst IsPlain (sym (derive-eq-axes found g.fast (not_fast_wheel l v))) (record {
            x_placed = x;
            y_placed = y;
            together = sym p.4;
            wheel = wheel_absent (ground (arith, k.3)) v;
          })
    ]
