-- ===== src/Synth.antt =====
-- src/synth_mouse.c: the descriptors and the reports of a synthetic boot mouse.
pub mod Laws
mod Tests
use hurra_v.Base.{
  ℕ, zero, suc, ◌+◌, ◌%◌, ◌^◌, true, List, [], ◌∷◌, ◌++◌, length, replicate, get_or, copy,
}
use hurra_v.Base.Int.{ℤ, pos, negsuc, to_word}
use hurra_v.Serial.{
  Blob, Iface, Captured, device_size, config_size, langid_size, bos_size, ms_os_size, report_size,
  max_interfaces, max_strings, no_blob, no_iface, no_string,
}

abbrev pub k_mouse_report_desc : List ℕ
k_mouse_report_desc =
    0x05 ∷ 0x01 ∷ 0x09 ∷ 0x02 ∷ 0xA1 ∷ 0x01 ∷ 0x09 ∷ 0x01 ∷ 0xA1 ∷ 0x00 ∷ 0x05 ∷ 0x09 ∷ 0x19 ∷ 0x01
    ∷ 0x29 ∷ 0x03 ∷ 0x15 ∷ 0x00 ∷ 0x25 ∷ 0x01 ∷ 0x95 ∷ 0x03 ∷ 0x75 ∷ 0x01 ∷ 0x81 ∷ 0x02 ∷ 0x95
    ∷ 0x01 ∷ 0x75 ∷ 0x05 ∷ 0x81 ∷ 0x01 ∷ 0x05 ∷ 0x01 ∷ 0x09 ∷ 0x30 ∷ 0x09 ∷ 0x31 ∷ 0x15 ∷ 0x81
    ∷ 0x25 ∷ 0x7F ∷ 0x75 ∷ 0x08 ∷ 0x95 ∷ 0x02 ∷ 0x81 ∷ 0x06 ∷ 0xC0 ∷ 0xC0 ∷ []

abbrev pub k_device_desc : List ℕ
k_device_desc =
    18 ∷ 0x01 ∷ 0x00 ∷ 0x02 ∷ 0x00 ∷ 0x00 ∷ 0x00 ∷ 64 ∷ 0xEF ∷ 0xCA ∷ 0x01 ∷ 0x53 ∷ 0x00 ∷ 0x01
    ∷ 0x00 ∷ 0x00 ∷ 0x00 ∷ 0x01 ∷ []

abbrev pub k_config_desc : List ℕ
k_config_desc =
    9
    ∷ 0x02
    ∷ 34
    ∷ 0x00
    ∷ 1
    ∷ 1
    ∷ 0x00
    ∷ 0xA0
    ∷ 50
    ∷ 9
    ∷ 0x04
    ∷ 0
    ∷ 0
    ∷ 1
    ∷ 0x03
    ∷ 0x01
    ∷ 0x02
    ∷ 0x00
    ∷ 9
    ∷ 0x21
    ∷ 0x11
    ∷ 0x01
    ∷ 0x00
    ∷ 1
    ∷ 0x22
    ∷ length k_mouse_report_desc
    ∷ 0x00
    ∷ 7
    ∷ 0x05
    ∷ 0x81
    ∷ 0x03
    ∷ 8
    ∷ 0x00
    ∷ 10
    ∷ []

-- `memcpy` to the start of a cleared array, with its length.
abbrev pub filled : ℕ → List ℕ → Blob
filled size src = record { bytes = copy (replicate size 0) 0 src; len = length src }

unfoldable pub synth_mouse_build_descriptors : Captured
synth_mouse_build_descriptors = record {
  valid = true;
  scalars = record {
    ep0_maxpkt = 64;
    dev_addr = 0;
    speed = 0;
    config_string_idx = 0;
    langid = 0;
    ms_os_vendor_code = 0;
  };
  blobs = record {
    device_desc = filled device_size k_device_desc;
    config_desc = filled config_size k_config_desc;
    langid_desc = no_blob langid_size;
    bos_desc = no_blob bos_size;
    ms_os_desc = no_blob ms_os_size;
  };
  ifaces =
      record no_iface {
        iface_class = 0x03;
        iface_subclass = 0x01;
        iface_protocol = 0x02;
        interrupt_in_ep = 0x81;
        interrupt_in_maxpkt = 8;
        interrupt_in_interval = 10;
        has_hid_desc = true;
        hid_report_desc = filled report_size k_mouse_report_desc;
      }
      ∷ replicate 7 no_iface;
  num_ifaces = 1;
  strings = replicate max_strings no_string;
  num_strings = 0;
}

abbrev pub dx_tab : List ℤ
dx_tab = pos 3 ∷ pos 3 ∷ pos 0 ∷ negsuc 2 ∷ negsuc 2 ∷ negsuc 2 ∷ pos 0 ∷ pos 3 ∷ []

abbrev pub dy_tab : List ℤ
dy_tab = pos 0 ∷ pos 3 ∷ pos 3 ∷ pos 3 ∷ pos 0 ∷ negsuc 2 ∷ negsuc 2 ∷ negsuc 2 ∷ []

-- The three bytes that are written to `report`.
unfoldable pub synth_mouse_next_report : ℕ → List ℕ
synth_mouse_next_report tick =
    let phase = tick % 8 in
    0x00 ∷ to_word 8 (get_or dx_tab phase (pos 0)) ∷ to_word 8 (get_or dy_tab phase (pos 0)) ∷ []
