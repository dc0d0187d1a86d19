-- ===== src/Serial/Read/RoundTrip.antt =====
-- What `desc_deserialize` makes of the bytes of `desc_serialize`.
use hurra_v.Base.{
  ℕ, ◌-◌, ◌^◌, ◌≤◌, ◌<◌, ◌≡◌, min, refl, ap, ◌∙◌, sym, subst, arith, Bool, true, false, not,
  bit_and, Option, none, some,
}
use hurra_v.Base.{
  List, [], ◌∷◌, ◌++◌, append-nil, length, take, replicate, length-take, ◌==◌, if◌then◌else◌,
  le→ltb,
}
use hurra_v.Serial.{
  max_interfaces, max_strings, device_size, config_size, langid_size, bos_size, ms_os_size,
  report_size, string_size, Blob, Iface, StringDesc, Captured, no_iface, no_string,
}
use hurra_v.Serial.Cursor.{
  Read, ready, Reads, done, r_blob, done-Reads, u8-Reads, u16-Reads, blob-Reads, then-Reads,
}
use hurra_v.Serial.Write.{flag, desc_serialize}
use hurra_v.Serial.Write.Bytes.{
  short_bytes, long_bytes, header_bytes, blobs_bytes, iface_bytes, ifaces_bytes, string_bytes,
  strings_bytes, captured_bytes, desc_serialize_lem,
}
use hurra_v.Serial.Read.{
  Header, r_short, r_long, r_header, r_blobs, r_iface, r_ifaces, r_string, r_strings, finish,
  desc_deserialize,
}

-- An array of the given size, zero from `len` on.
pub record IsPadded (size : ℕ) (b : Blob) : Type 0 where
  pub room : b.len ≤ size
  pub whole : length b.bytes ≡ size
  pub tail : b.bytes ≡ take b.len b.bytes ++ replicate (size - b.len) 0

pub record IsIface (f : Iface) : Type 0 where
  pub in_word : f.interrupt_in_maxpkt < 2 ^ 16
  pub out_word : f.interrupt_out_maxpkt < 2 ^ 16
  pub report : IsPadded report_size f.hid_report_desc

pub data All {A : Type 0} (P : A → Type 0) : List A → Type 0 where
  nothing : All P []
  also : {x : A} {xs : List A} → P x → All P xs → All P (x ∷ xs)

-- A captured struct: each count within its array, and what is beyond a count zero.
pub record IsCaptured (d : Captured) : Type 0 where
  pub langid_word : d.scalars.langid < 2 ^ 16
  pub device : IsPadded device_size d.blobs.device_desc
  pub config : IsPadded config_size d.blobs.config_desc
  pub langids : IsPadded langid_size d.blobs.langid_desc
  pub bos : IsPadded bos_size d.blobs.bos_desc
  pub ms_os : IsPadded ms_os_size d.blobs.ms_os_desc
  pub some_ifaces : d.num_ifaces ≤ max_interfaces
  pub ifaces_room : length d.ifaces ≡ max_interfaces
  pub ifaces_tail :
      d.ifaces ≡ take d.num_ifaces d.ifaces ++ replicate (max_interfaces - d.num_ifaces) no_iface
  pub ifaces_good : All IsIface (take d.num_ifaces d.ifaces)
  pub some_strings : d.num_strings ≤ max_strings
  pub strings_room : length d.strings ≡ max_strings
  pub strings_tail :
      d.strings ≡ take d.num_strings d.strings ++ replicate (max_strings - d.num_strings) no_string
  pub strings_good :
      All (λ (s : StringDesc). IsPadded string_size s.string_desc) (take d.num_strings d.strings)

min_le : (a b : ℕ) → a ≤ b → min a b ≡ a
min_le a b h = omega arith

padded-Reads :
    (size : ℕ) (b : Blob) → IsPadded size b → Reads (r_blob b.len size) (take b.len b.bytes) b.bytes
padded-Reads size b p = subst (Reads (r_blob b.len size) (take b.len b.bytes)) (sym p.tail) (
    blob-Reads b.len size (take b.len b.bytes)
      (omega (arith, length-take b.len b.bytes, p.room, p.whole)) p.room)

kept : {A : Type 0} {m : Read A} {bs : List ℕ} {a : A} → Reads m (bs ++ []) a → Reads m bs a
kept {m = m} {bs = bs} {a = a} r = subst (λ q. Reads m q a) (append-nil bs) r

short-Reads : (size : ℕ) (b : Blob) → IsPadded size b → Reads (r_short size) (short_bytes size b) b
unfolding r_short
short-Reads size b p =
    rw (min_le b.len size p.room)
      (then-Reads _ (u8-Reads b.len) (kept (then-Reads _ (padded-Reads size b p) (done-Reads b))))

long-Reads :
    (size : ℕ) (b : Blob)
    → size < 2 ^ 16
    → IsPadded size b
    → Reads (r_long size) (long_bytes size b) b
unfolding r_long
long-Reads size b w p = rw (min_le b.len size p.room) (
    then-Reads _ (u16-Reads b.len (omega (arith, p.room)))
      (kept (then-Reads _ (padded-Reads size b p) (done-Reads b))))

flag_nonzero : (b : Bool) → not (flag b == 0) ≡ b
flag_nonzero true = refl
flag_nonzero false = refl

flag_bit : (b : Bool) → not (bit_and (flag b) 1 == 0) ≡ b
flag_bit true = refl
flag_bit false = refl

abbrev header_of : Captured → Header
header_of d = record {
  magic0 = 0x44;
  magic1 = 0x53;
  version = 0x01;
  flags = flag d.valid;
  scalars = d.scalars;
  num_ifaces = min d.num_ifaces max_interfaces;
}

header-Reads :
    (d : Captured) → d.scalars.langid < 2 ^ 16 → Reads r_header (header_bytes d) (header_of d)
unfolding r_header
header-Reads d w = then-Reads _ (u8-Reads _) (
    then-Reads _ (u8-Reads _) (
      then-Reads _ (u8-Reads _) (
        then-Reads _ (u8-Reads _) (
          then-Reads _ (u8-Reads _) (
            then-Reads _ (u8-Reads _) (
              then-Reads _ (u8-Reads _) (
                then-Reads _ (u8-Reads _) (
                  then-Reads _ (u16-Reads _ w)
                    (then-Reads _ (u8-Reads _) (then-Reads _ (u8-Reads _) (done-Reads _)))))))))))

blobs-Reads : (d : Captured) → IsCaptured d → Reads r_blobs (blobs_bytes d.blobs) d.blobs
unfolding r_blobs
blobs-Reads d c = then-Reads _ (short-Reads device_size d.blobs.device_desc c.device) (
    then-Reads _ (long-Reads config_size d.blobs.config_desc (omega arith) c.config) (
      then-Reads _ (short-Reads langid_size d.blobs.langid_desc c.langids) (
        then-Reads _ (long-Reads bos_size d.blobs.bos_desc (omega arith) c.bos) (
          kept (
            then-Reads _ (short-Reads ms_os_size d.blobs.ms_os_desc c.ms_os)
              (done-Reads d.blobs))))))

iface-Reads : (f : Iface) → IsIface f → Reads r_iface (iface_bytes f) f
unfolding r_iface
iface-Reads f g = then-Reads _ (u8-Reads _) (
    then-Reads _ (u8-Reads _) (
      then-Reads _ (u8-Reads _) (
        then-Reads _ (u8-Reads _) (
          then-Reads _ (u8-Reads _) (
            then-Reads _ (u8-Reads _) (
              then-Reads _ (u16-Reads _ g.in_word) (
                then-Reads _ (u8-Reads _) (
                  then-Reads _ (u8-Reads _) (
                    then-Reads _ (u16-Reads _ g.out_word) (
                      then-Reads _ (u8-Reads _) (
                        then-Reads _ (u8-Reads (flag f.has_hid_desc)) (
                          kept (
                            then-Reads _
                              (long-Reads report_size f.hid_report_desc (omega arith) g.report)
                              (subst
                                (λ q.
                                  Reads
                                    (done
                                      (record f { has_hid_desc = not (flag f.has_hid_desc == 0) }))
                                    [] (record f { has_hid_desc = q }))
                                (flag_nonzero f.has_hid_desc) (done-Reads _)))))))))))))))

ifaces-Reads :
    (fs : List Iface) → All IsIface fs → Reads (r_ifaces (length fs)) (ifaces_bytes fs) fs
unfolding r_ifaces
ifaces-Reads [] nothing = done-Reads []
ifaces-Reads (f ∷ fs) (also g gs) =
    then-Reads _ (iface-Reads f g) (kept (then-Reads _ (ifaces-Reads fs gs) (done-Reads (f ∷ fs))))

string-Reads :
    (s : StringDesc) → IsPadded string_size s.string_desc → Reads r_string (string_bytes s) s
unfolding r_string
string-Reads s p =
    then-Reads _ (u8-Reads s.string_index)
      (kept (then-Reads _ (short-Reads string_size s.string_desc p) (done-Reads s)))

strings-Reads :
    (ss : List StringDesc)
    → All (λ (s : StringDesc). IsPadded string_size s.string_desc) ss
    → Reads (r_strings (length ss)) (strings_bytes ss) ss
unfolding r_strings
strings-Reads [] nothing = done-Reads []
strings-Reads (s ∷ ss) (also p ps) =
    then-Reads _ (string-Reads s p)
      (kept (then-Reads _ (strings-Reads ss ps) (done-Reads (s ∷ ss))))

count_take :
    {A : Type 0} (n max : ℕ) (xs : List A) → n ≤ max → length xs ≡ max → length (take n xs) ≡ n
count_take n max xs h e = omega (arith, h, e, length-take n xs)

counted_ifaces :
    (d : Captured)
    → IsCaptured d
    → Reads
        (r_ifaces d.num_ifaces)
        (ifaces_bytes (take d.num_ifaces d.ifaces))
        (take d.num_ifaces d.ifaces)
counted_ifaces d c =
    let fs = take d.num_ifaces d.ifaces in
    subst (λ n. Reads (r_ifaces n) (ifaces_bytes fs) fs)
      (count_take d.num_ifaces max_interfaces d.ifaces c.some_ifaces c.ifaces_room)
      (ifaces-Reads fs c.ifaces_good)

counted_strings :
    (d : Captured)
    → IsCaptured d
    → Reads
        (r_strings d.num_strings)
        (strings_bytes (take d.num_strings d.strings))
        (take d.num_strings d.strings)
counted_strings d c =
    let ss = take d.num_strings d.strings in
    subst (λ n. Reads (r_strings n) (strings_bytes ss) ss)
      (count_take d.num_strings max_strings d.strings c.some_strings c.strings_room)
      (strings-Reads ss c.strings_good)

at_end :
    {A : Type 0} (m : Read A) (bs : List ℕ) (a : A) → Reads m bs a → m (ready bs) ≡ (a, ready [])
at_end m bs a r = subst (λ q. m (ready q) ≡ (a, ready [])) (append-nil bs) (r.reads [])

finish_reads :
    (d : Captured)
    → IsCaptured d
    → finish
        (record (header_of d) { num_ifaces = d.num_ifaces })
        d.blobs
        (take d.num_ifaces d.ifaces)
        (ready (d.num_strings ∷ strings_bytes (take d.num_strings d.strings)))
      ≡ some d
unfolding finish
finish_reads d c =
    let ss = take d.num_strings d.strings in
    rw
      (
        (u8-Reads d.num_strings).reads (strings_bytes ss),
        le→ltb max_strings d.num_strings c.some_strings,
        at_end (r_strings d.num_strings) (strings_bytes ss) ss (counted_strings d c),
        sym c.ifaces_tail,
        sym c.strings_tail,
        flag_bit d.valid,
      )
      refl

read_back : (d : Captured) → IsCaptured d → desc_deserialize (captured_bytes d) ≡ some d
unfolding desc_deserialize captured_bytes
read_back d c =
    let fs = ifaces_bytes (take d.num_ifaces d.ifaces) in
    let end = d.num_strings ∷ strings_bytes (take d.num_strings d.strings) in
    rw
      (
        min_le d.num_strings max_strings c.some_strings,
        (header-Reads d c.langid_word).reads (
            blobs_bytes d.blobs
            ++ (ifaces_bytes (take (min d.num_ifaces max_interfaces) d.ifaces) ++ end)),
        min_le d.num_ifaces max_interfaces c.some_ifaces,
        le→ltb max_interfaces d.num_ifaces c.some_ifaces,
        (blobs-Reads d c).reads (fs ++ end),
        (counted_ifaces d c).reads end,
      )
      (finish_reads d c)

abbrev pub receive : Option (List ℕ) → Option Captured
receive none = none
receive (some bytes) = desc_deserialize bytes

-- What the other board reads of what this one writes.
abbrev pub over_wire : Captured → ℕ → Option Captured
over_wire d out_cap = receive (desc_serialize d out_cap)

-- A captured struct whose counts are within its arrays and whose arrays are zero beyond their counts,
-- written to a buffer of 7136 bytes or more, is read back whole: every field, and the arrays with their
-- zeros.
pub desc_deserialize-desc_serialize :
    (d : Captured) (out_cap : ℕ) → IsCaptured d → 7136 ≤ out_cap → over_wire d out_cap ≡ some d
desc_deserialize-desc_serialize d out_cap c h =
    let l = desc_serialize_lem d out_cap in
    let room = le→ltb out_cap (length (captured_bytes d)) (omega (arith, l.1, h)) in
    ap receive (l.0 ∙ ap (λ (b : Bool). if b then none else some (captured_bytes d)) room)
    ∙ read_back d c
