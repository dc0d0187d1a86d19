-- ===== src/Serial/Read.antt =====
-- `desc_deserialize`.
pub mod RoundTrip
use hurra_v.Base.{ℕ, zero, suc, ◌+◌, ◌-◌, Bool, true, false, not, ◌||◌, bit_and, Option, none, some}
use hurra_v.Base.{List, [], ◌∷◌, ◌++◌, length, replicate, ltb, ◌==◌, if◌then◌else◌}
use hurra_v.Serial.{
  max_interfaces, max_strings, device_size, config_size, langid_size, bos_size, ms_os_size,
  report_size, string_size, Blob, Iface, StringDesc, Scalars, Blobs, Captured, no_iface, no_string,
}
use hurra_v.Serial.Cursor.{Reader, Read, ◌>>=◌, done, r_u8, r_u16, r_blob}

-- A blob under a length of one byte, and under one of two.
pub r_short : ℕ → Read Blob
r_short size = do n ← r_u8; bytes ← r_blob n size; done (record { bytes = bytes; len = n })

pub r_long : ℕ → Read Blob
r_long size = do n ← r_u16; bytes ← r_blob n size; done (record { bytes = bytes; len = n })

-- The header: the three bytes that are tested, the flags, the scalars and the number of interfaces.
pub record Header : Type 0 where
  pub magic0 : ℕ
  pub magic1 : ℕ
  pub version : ℕ
  pub flags : ℕ
  pub scalars : Scalars
  pub num_ifaces : ℕ

pub r_header : Read Header
r_header = do
  magic0 ← r_u8
  magic1 ← r_u8
  version ← r_u8
  flags ← r_u8
  ep0_maxpkt ← r_u8
  dev_addr ← r_u8
  speed ← r_u8
  config_string_idx ← r_u8
  langid ← r_u16
  ms_os_vendor_code ← r_u8
  nif ← r_u8
  done (record {
    magic0 = magic0;
    magic1 = magic1;
    version = version;
    flags = flags;
    scalars = record {
      ep0_maxpkt = ep0_maxpkt;
      dev_addr = dev_addr;
      speed = speed;
      config_string_idx = config_string_idx;
      langid = langid;
      ms_os_vendor_code = ms_os_vendor_code;
    };
    num_ifaces = nif;
  })

pub r_blobs : Read Blobs
r_blobs = do
  device_desc ← r_short device_size
  config_desc ← r_long config_size
  langid_desc ← r_short langid_size
  bos_desc ← r_long bos_size
  ms_os_desc ← r_short ms_os_size
  done (record {
    device_desc = device_desc;
    config_desc = config_desc;
    langid_desc = langid_desc;
    bos_desc = bos_desc;
    ms_os_desc = ms_os_desc;
  })

pub r_iface : Read Iface
r_iface = do
  iface_num ← r_u8
  iface_class ← r_u8
  iface_subclass ← r_u8
  iface_protocol ← r_u8
  iface_string_idx ← r_u8
  interrupt_in_ep ← r_u8
  interrupt_in_maxpkt ← r_u16
  interrupt_in_interval ← r_u8
  interrupt_out_ep ← r_u8
  interrupt_out_maxpkt ← r_u16
  interrupt_out_interval ← r_u8
  has_hid_desc ← r_u8
  hid_report_desc ← r_long report_size
  done (record {
    iface_num = iface_num;
    iface_class = iface_class;
    iface_subclass = iface_subclass;
    iface_protocol = iface_protocol;
    iface_string_idx = iface_string_idx;
    interrupt_in_ep = interrupt_in_ep;
    interrupt_in_maxpkt = interrupt_in_maxpkt;
    interrupt_in_interval = interrupt_in_interval;
    interrupt_out_ep = interrupt_out_ep;
    interrupt_out_maxpkt = interrupt_out_maxpkt;
    interrupt_out_interval = interrupt_out_interval;
    has_hid_desc = not (has_hid_desc == 0);
    hid_report_desc = hid_report_desc;
  })

pub r_ifaces : ℕ → Read (List Iface)
r_ifaces zero = done []
r_ifaces (suc n) = r_iface >>= λ f. r_ifaces n >>= λ fs. done (f ∷ fs)

pub r_string : Read StringDesc
r_string = do
  string_index ← r_u8
  string_desc ← r_short string_size
  done (record { string_index = string_index; string_desc = string_desc })

pub r_strings : ℕ → Read (List StringDesc)
r_strings zero = done []
r_strings (suc n) = r_string >>= λ s. r_strings n >>= λ ss. done (s ∷ ss)

-- The strings and the last test, after all that comes before them.
pub finish : Header → Blobs → List Iface → Reader → Option Captured
finish h blobs ifaces r =
    let (ns, counted) = r_u8 r in
    if not counted.ok || ltb max_strings ns
    then none
    else let (strings, end) = r_strings ns counted in
      if end.ok
      then some (record {
        valid = not (bit_and h.flags 1 == 0);
        scalars = h.scalars;
        blobs = blobs;
        ifaces = ifaces ++ replicate (max_interfaces - h.num_ifaces) no_iface;
        num_ifaces = h.num_ifaces;
        strings = strings ++ replicate (max_strings - ns) no_string;
        num_strings = ns;
      })
      else none

-- `none` where the code returns false. What was not read is zero, as `memset` leaves it.
pub desc_deserialize : List ℕ → Option Captured
desc_deserialize bytes =
    let (h, r) = r_header (record { rest = bytes; ok = true }) in
    if not (h.magic0 == 0x44) || not (h.magic1 == 0x53) || not (h.version == 0x01)
    then none
    else if not r.ok || ltb max_interfaces h.num_ifaces
    then none
    else let (blobs, r1) = r_blobs r in
      let (ifaces, r2) = r_ifaces h.num_ifaces r1 in finish h blobs ifaces r2
