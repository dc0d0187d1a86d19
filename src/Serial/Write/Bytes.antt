-- ===== src/Serial/Write/Bytes.antt =====
-- The bytes that `desc_serialize` writes where they fit, and how many they are at most.
use hurra_v.Base.{ℕ, ◌+◌, ◌*◌, ◌/◌, ◌%◌, ◌≤◌, ◌<◌, ◌≡◌, min, refl, ap, sym, arith, true, none, some}
use hurra_v.Base.{
  List, [], ◌∷◌, ◌++◌, append-nil, length, take, length-append, length-take, ltb, if◌then◌else◌,
  Bool-cases, ltb→lt, inl, inr,
}
use hurra_v.Serial.{
  max_interfaces, max_strings, device_size, config_size, langid_size, bos_size, ms_os_size,
  report_size, string_size, Blob, Iface, StringDesc, Blobs, Captured,
}
use hurra_v.Serial.Cursor.{Emits, u8-Emits, u16-Emits, blob-Emits, then-Emits}
use hurra_v.Serial.Write.{
  flag, w_none, w_short, w_long, w_header, w_blobs, w_iface, w_ifaces, w_string, w_strings,
  w_captured, desc_serialize,
}

abbrev pub short_bytes : ℕ → Blob → List ℕ
short_bytes size b = min b.len size ∷ take (min b.len size) b.bytes

abbrev pub long_bytes : ℕ → Blob → List ℕ
long_bytes size b =
    min b.len size % 256 ∷ min b.len size / 256 % 256 ∷ take (min b.len size) b.bytes

abbrev pub header_bytes : Captured → List ℕ
header_bytes d =
    0x44
    ∷ 0x53
    ∷ 0x01
    ∷ flag d.valid
    ∷ d.scalars.ep0_maxpkt
    ∷ d.scalars.dev_addr
    ∷ d.scalars.speed
    ∷ d.scalars.config_string_idx
    ∷ d.scalars.langid % 256
    ∷ d.scalars.langid / 256 % 256
    ∷ d.scalars.ms_os_vendor_code
    ∷ min d.num_ifaces max_interfaces
    ∷ []

abbrev pub blobs_bytes : Blobs → List ℕ
blobs_bytes b =
    short_bytes device_size b.device_desc
    ++ (long_bytes config_size b.config_desc
        ++ (short_bytes langid_size b.langid_desc
            ++ (long_bytes bos_size b.bos_desc ++ short_bytes ms_os_size b.ms_os_desc)))

abbrev pub iface_bytes : Iface → List ℕ
iface_bytes f =
    f.iface_num
    ∷ f.iface_class
    ∷ f.iface_subclass
    ∷ f.iface_protocol
    ∷ f.iface_string_idx
    ∷ f.interrupt_in_ep
    ∷ f.interrupt_in_maxpkt % 256
    ∷ f.interrupt_in_maxpkt / 256 % 256
    ∷ f.interrupt_in_interval
    ∷ f.interrupt_out_ep
    ∷ f.interrupt_out_maxpkt % 256
    ∷ f.interrupt_out_maxpkt / 256 % 256
    ∷ f.interrupt_out_interval
    ∷ flag f.has_hid_desc
    ∷ long_bytes report_size f.hid_report_desc

abbrev pub ifaces_bytes : List Iface → List ℕ
ifaces_bytes [] = []
ifaces_bytes (f ∷ fs) = iface_bytes f ++ ifaces_bytes fs

abbrev pub string_bytes : StringDesc → List ℕ
string_bytes s = s.string_index ∷ short_bytes string_size s.string_desc

abbrev pub strings_bytes : List StringDesc → List ℕ
strings_bytes [] = []
strings_bytes (s ∷ ss) = string_bytes s ++ strings_bytes ss

unfoldable pub captured_bytes : Captured → List ℕ
captured_bytes d =
    header_bytes d
    ++ (blobs_bytes d.blobs
        ++ (ifaces_bytes (take (min d.num_ifaces max_interfaces) d.ifaces)
            ++ (min d.num_strings max_strings
                ∷ strings_bytes (take (min d.num_strings max_strings) d.strings))))

none-Emits : Emits w_none []
unfolding w_none
none-Emits = record {
  fits = λ w o h. ap (λ (q : List ℕ). record w { out = q }) (sym (append-nil w.out));
  fails = λ w h. ground (arith, h);
}

short-Emits : (size : ℕ) (b : Blob) → Emits (w_short size b) (short_bytes size b)
unfolding w_short
short-Emits size b = then-Emits (u8-Emits _) (blob-Emits _)

long-Emits : (size : ℕ) (b : Blob) → Emits (w_long size b) (long_bytes size b)
unfolding w_long
long-Emits size b = then-Emits (u16-Emits _) (blob-Emits _)

header-Emits : (d : Captured) → Emits (w_header d) (header_bytes d)
unfolding w_header
header-Emits d = then-Emits (u8-Emits _) (
    then-Emits (u8-Emits _) (
      then-Emits (u8-Emits _) (
        then-Emits (u8-Emits _) (
          then-Emits (u8-Emits _) (
            then-Emits (u8-Emits _) (
              then-Emits (u8-Emits _) (
                then-Emits (u8-Emits _)
                  (then-Emits (u16-Emits _) (then-Emits (u8-Emits _) (u8-Emits _))))))))))

blobs-Emits : (b : Blobs) → Emits (w_blobs b) (blobs_bytes b)
unfolding w_blobs
blobs-Emits b = then-Emits (short-Emits _ _) (
    then-Emits (long-Emits _ _)
      (then-Emits (short-Emits _ _) (then-Emits (long-Emits _ _) (short-Emits _ _))))

iface-Emits : (f : Iface) → Emits (w_iface f) (iface_bytes f)
unfolding w_iface
iface-Emits f = then-Emits (u8-Emits _) (
    then-Emits (u8-Emits _) (
      then-Emits (u8-Emits _) (
        then-Emits (u8-Emits _) (
          then-Emits (u8-Emits _) (
            then-Emits (u8-Emits _) (
              then-Emits (u16-Emits _) (
                then-Emits (u8-Emits _) (
                  then-Emits (u8-Emits _) (
                    then-Emits (u16-Emits _)
                      (then-Emits (u8-Emits _) (then-Emits (u8-Emits _) (long-Emits _ _))))))))))))

ifaces-Emits : (fs : List Iface) → Emits (w_ifaces fs) (ifaces_bytes fs)
unfolding w_ifaces
ifaces-Emits [] = none-Emits
ifaces-Emits (f ∷ fs) = then-Emits (iface-Emits f) (ifaces-Emits fs)

string-Emits : (s : StringDesc) → Emits (w_string s) (string_bytes s)
unfolding w_string
string-Emits s = then-Emits (u8-Emits _) (short-Emits _ _)

strings-Emits : (ss : List StringDesc) → Emits (w_strings ss) (strings_bytes ss)
unfolding w_strings
strings-Emits [] = none-Emits
strings-Emits (s ∷ ss) = then-Emits (string-Emits s) (strings-Emits ss)

captured-Emits : (d : Captured) → Emits (w_captured d) (captured_bytes d)
unfolding w_captured captured_bytes
captured-Emits d = then-Emits (header-Emits d) (
    then-Emits (blobs-Emits d.blobs)
      (then-Emits (ifaces-Emits _) (then-Emits (u8-Emits _) (strings-Emits _))))

short-le : (size : ℕ) (b : Blob) → length (short_bytes size b) ≤ 1 + size
short-le size b = omega (arith, length-take (min b.len size) b.bytes)

long-le : (size : ℕ) (b : Blob) → length (long_bytes size b) ≤ 2 + size
long-le size b = omega (arith, length-take (min b.len size) b.bytes)

blobs-le : (b : Blobs) → length (blobs_bytes b) ≤ 819
blobs-le b =
    let s1 = short_bytes device_size b.device_desc in
    let s2 = long_bytes config_size b.config_desc in
    let s3 = short_bytes langid_size b.langid_desc in
    let s4 = long_bytes bos_size b.bos_desc in
    let s5 = short_bytes ms_os_size b.ms_os_desc in
    omega (
      arith,
      length-append s1 (s2 ++ (s3 ++ (s4 ++ s5))),
      length-append s2 (s3 ++ (s4 ++ s5)),
      length-append s3 (s4 ++ s5),
      length-append s4 s5,
      short-le device_size b.device_desc,
      long-le config_size b.config_desc,
      short-le langid_size b.langid_desc,
      long-le bos_size b.bos_desc,
      short-le ms_os_size b.ms_os_desc,
    )

ifaces-le : (fs : List Iface) → length (ifaces_bytes fs) ≤ 528 * length fs
ifaces-le [] = omega arith
ifaces-le (f ∷ fs) = omega (
  arith,
  ifaces-le fs,
  length-append (iface_bytes f) (ifaces_bytes fs),
  long-le report_size f.hid_report_desc,
)

strings-le : (ss : List StringDesc) → length (strings_bytes ss) ≤ 130 * length ss
strings-le [] = omega arith
strings-le (s ∷ ss) = omega (
  arith,
  strings-le ss,
  length-append (string_bytes s) (strings_bytes ss),
  short-le string_size s.string_desc,
)

captured-le : (d : Captured) → length (captured_bytes d) ≤ 7136
unfolding captured_bytes
captured-le d =
    let fs = take (min d.num_ifaces max_interfaces) d.ifaces in
    let ss = take (min d.num_strings max_strings) d.strings in
    let end = min d.num_strings max_strings ∷ strings_bytes ss in
    omega (
      arith,
      length-append (header_bytes d) (blobs_bytes d.blobs ++ (ifaces_bytes fs ++ end)),
      length-append (blobs_bytes d.blobs) (ifaces_bytes fs ++ end),
      length-append (ifaces_bytes fs) end,
      blobs-le d.blobs,
      ifaces-le fs,
      strings-le ss,
      length-take (min d.num_ifaces max_interfaces) d.ifaces,
      length-take (min d.num_strings max_strings) d.strings,
    )

serialize_fits :
    (d : Captured) (out_cap : ℕ)
    → length (captured_bytes d) ≤ out_cap
    → desc_serialize d out_cap ≡ some (captured_bytes d)
unfolding desc_serialize
serialize_fits d out_cap h =
    rw
      ((captured-Emits d).fits (record { out = []; cap = out_cap; ok = true }) refl
        (omega (arith, h)))
      refl

serialize_fails :
    (d : Captured) (out_cap : ℕ)
    → out_cap < length (captured_bytes d)
    → desc_serialize d out_cap ≡ none
unfolding desc_serialize
serialize_fails d out_cap h =
    rw
      ((captured-Emits d).fails (record { out = []; cap = out_cap; ok = true })
        (λ o. (omega arith, omega (arith, h))))
      refl

-- The code writes the bytes that `captured_bytes` lists if they fit the buffer, and otherwise fails
-- whole; they are never more than 7136, so that it never fails with a buffer of that size.
pub desc_serialize_lem :
    (d : Captured) (out_cap : ℕ)
    → (desc_serialize d out_cap
        ≡ (if ltb out_cap (length (captured_bytes d)) then none else some (captured_bytes d)))
      × (length (captured_bytes d) ≤ 7136)
desc_serialize_lem d out_cap = (
  elim (Bool-cases (ltb out_cap (length (captured_bytes d)))) [
    | inl h ↦ rw (h, serialize_fails d out_cap (ltb→lt _ _ h)) refl
    | inr h ↦ rw (h, serialize_fits d out_cap (ground (arith, h))) refl
  ],
  captured-le d,
)
