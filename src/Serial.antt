-- ===== src/Serial.antt =====
-- src/desc_serialize.c: the captured descriptors, written to and read from the wire.
pub mod Cursor
pub mod Write
pub mod Read
mod Tests
use hurra_v.Base.{ℕ, Bool, false, List, replicate}

-- `MAX_INTERFACES`, `MAX_STRINGS` and the sizes of the arrays of src/desc_capture.h
abbrev pub max_interfaces : ℕ
max_interfaces = 8

abbrev pub max_strings : ℕ
max_strings = 16

abbrev pub device_size : ℕ
device_size = 18

abbrev pub config_size : ℕ
config_size = 512

abbrev pub langid_size : ℕ
langid_size = 8

abbrev pub bos_size : ℕ
bos_size = 256

abbrev pub ms_os_size : ℕ
ms_os_size = 18

abbrev pub report_size : ℕ
report_size = 512

abbrev pub string_size : ℕ
string_size = 128

-- A fixed-size array `x_desc` with its `x_desc_len`.
pub record Blob : Type 0 where
  pub bytes : List ℕ
  pub len : ℕ

-- `captured_iface_t`
pub record Iface : Type 0 where
  pub iface_num : ℕ
  pub iface_class : ℕ
  pub iface_subclass : ℕ
  pub iface_protocol : ℕ
  pub iface_string_idx : ℕ
  pub interrupt_in_ep : ℕ
  pub interrupt_in_maxpkt : ℕ
  pub interrupt_in_interval : ℕ
  pub interrupt_out_ep : ℕ
  pub interrupt_out_maxpkt : ℕ
  pub interrupt_out_interval : ℕ
  pub has_hid_desc : Bool
  pub hid_report_desc : Blob

-- An index of `string_index`, `string_desc` and `string_desc_len`.
pub record StringDesc : Type 0 where
  pub string_index : ℕ
  pub string_desc : Blob

-- The scalars that the wire's header holds, but for `valid` and `num_ifaces`.
pub record Scalars : Type 0 where
  pub ep0_maxpkt : ℕ
  pub dev_addr : ℕ
  pub speed : ℕ
  pub config_string_idx : ℕ
  pub langid : ℕ
  pub ms_os_vendor_code : ℕ

-- The descriptors that there is one of each.
pub record Blobs : Type 0 where
  pub device_desc : Blob
  pub config_desc : Blob
  pub langid_desc : Blob
  pub bos_desc : Blob
  pub ms_os_desc : Blob

-- `captured_descriptors_t`
pub record Captured : Type 0 where
  pub valid : Bool
  pub scalars : Scalars
  pub blobs : Blobs
  pub ifaces : List Iface
  pub num_ifaces : ℕ
  pub strings : List StringDesc
  pub num_strings : ℕ

abbrev pub no_blob : ℕ → Blob
no_blob size = record { bytes = replicate size 0; len = 0 }

abbrev pub no_iface : Iface
no_iface = record {
  iface_num = 0;
  iface_class = 0;
  iface_subclass = 0;
  iface_protocol = 0;
  iface_string_idx = 0;
  interrupt_in_ep = 0;
  interrupt_in_maxpkt = 0;
  interrupt_in_interval = 0;
  interrupt_out_ep = 0;
  interrupt_out_maxpkt = 0;
  interrupt_out_interval = 0;
  has_hid_desc = false;
  hid_report_desc = no_blob report_size;
}

abbrev pub no_string : StringDesc
no_string = record { string_index = 0; string_desc = no_blob string_size }
