-- ===== src/Serial/Write.antt =====
-- `desc_serialize`.
pub mod Bytes
use hurra_v.Base.{
  ℕ, zero, suc, ◌+◌, ◌-◌, ◌*◌, ◌/◌, ◌%◌, ◌^◌, min, Bool, true, false, Option, none, some,
}
use hurra_v.Base.{List, [], ◌∷◌, ◌++◌, length, take, ltb, if◌then◌else◌}
use hurra_v.Serial.{
  max_interfaces, max_strings, device_size, config_size, langid_size, bos_size, ms_os_size,
  report_size, string_size, Blob, Iface, StringDesc, Scalars, Blobs, Captured,
}
use hurra_v.Serial.Cursor.{Writer, w_u8, w_u16, w_blob, ◌⨾◌}

abbrev pub flag : Bool → ℕ
flag b = if b then 1 else 0

-- Nothing more is written.
pub w_none : Writer → Writer
w_none w = w

-- A blob under a length of one byte, and under one of two: the length is cut to the size of the array.
pub w_short : ℕ → Blob → Writer → Writer
w_short size b = w_u8 (min b.len size) ⨾ w_blob (take (min b.len size) b.bytes)

pub w_long : ℕ → Blob → Writer → Writer
w_long size b = w_u16 (min b.len size) ⨾ w_blob (take (min b.len size) b.bytes)

pub w_header : Captured → Writer → Writer
w_header d =
    w_u8 0x44
    ⨾ w_u8 0x53
    ⨾ w_u8 0x01
    ⨾ w_u8 (flag d.valid)
    ⨾ w_u8 d.scalars.ep0_maxpkt
    ⨾ w_u8 d.scalars.dev_addr
    ⨾ w_u8 d.scalars.speed
    ⨾ w_u8 d.scalars.config_string_idx
    ⨾ w_u16 d.scalars.langid
    ⨾ w_u8 d.scalars.ms_os_vendor_code
    ⨾ w_u8 (min d.num_ifaces max_interfaces)

pub w_blobs : Blobs → Writer → Writer
w_blobs b =
    w_short device_size b.device_desc
    ⨾ w_long config_size b.config_desc
    ⨾ w_short langid_size b.langid_desc
    ⨾ w_long bos_size b.bos_desc
    ⨾ w_short ms_os_size b.ms_os_desc

pub w_iface : Iface → Writer → Writer
w_iface f =
    w_u8 f.iface_num
    ⨾ w_u8 f.iface_class
    ⨾ w_u8 f.iface_subclass
    ⨾ w_u8 f.iface_protocol
    ⨾ w_u8 f.iface_string_idx
    ⨾ w_u8 f.interrupt_in_ep
    ⨾ w_u16 f.interrupt_in_maxpkt
    ⨾ w_u8 f.interrupt_in_interval
    ⨾ w_u8 f.interrupt_out_ep
    ⨾ w_u16 f.interrupt_out_maxpkt
    ⨾ w_u8 f.interrupt_out_interval
    ⨾ w_u8 (flag f.has_hid_desc)
    ⨾ w_long report_size f.hid_report_desc

pub w_ifaces : List Iface → Writer → Writer
w_ifaces [] = w_none
w_ifaces (f ∷ fs) = w_iface f ⨾ w_ifaces fs

pub w_string : StringDesc → Writer → Writer
w_string s = w_u8 s.string_index ⨾ w_short string_size s.string_desc

pub w_strings : List StringDesc → Writer → Writer
w_strings [] = w_none
w_strings (s ∷ ss) = w_string s ⨾ w_strings ss

pub w_captured : Captured → Writer → Writer
w_captured d =
    w_header d
    ⨾ w_blobs d.blobs
    ⨾ w_ifaces (take (min d.num_ifaces max_interfaces) d.ifaces)
    ⨾ w_u8 (min d.num_strings max_strings)
    ⨾ w_strings (take (min d.num_strings max_strings) d.strings)

-- The bytes written, or `none` where the code returns 0.
pub desc_serialize : Captured → ℕ → Option (List ℕ)
desc_serialize d out_cap =
    let w = w_captured d (record { out = []; cap = out_cap; ok = true }) in
    if w.ok then some w.out else none
