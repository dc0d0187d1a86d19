-- ===== src/Serial/Tests.antt =====
-- The serialisation on a concrete device.
use hurra_v.Base.{
  ℕ, ◌≡◌, ◌≤◌, refl, arith, true, ◌∷◌, replicate, none, some, ltb, if◌then◌else◌, length,
}
use hurra_v.Serial.{Blob, Iface, Captured, no_blob, no_iface, no_string}
use hurra_v.Serial.Write.{desc_serialize}
use hurra_v.Serial.Write.Bytes.{captured_bytes, desc_serialize_lem}
use hurra_v.Serial.Read.RoundTrip.{
  nothing, also, IsCaptured, over_wire, desc_deserialize-desc_serialize,
}

-- A mouse of one interface and one string.
abbrev blob : ℕ → ℕ → ℕ → Blob
blob a b rest = record { bytes = a ∷ b ∷ replicate rest 0; len = 2 }

abbrev iface : Iface
iface = record no_iface {
  iface_class = 3;
  interrupt_in_ep = 0x81;
  interrupt_in_maxpkt = 300;
  has_hid_desc = true;
  hid_report_desc = blob 5 1 510;
}

abbrev mouse : Captured
mouse = record {
  valid = true;
  scalars = record {
    ep0_maxpkt = 64;
    dev_addr = 1;
    speed = 2;
    config_string_idx = 0;
    langid = 0x409;
    ms_os_vendor_code = 0;
  };
  blobs = record {
    device_desc = blob 18 1 16;
    config_desc = blob 9 2 510;
    langid_desc = blob 4 3 6;
    bos_desc = no_blob 256;
    ms_os_desc = no_blob 18;
  };
  ifaces = iface ∷ replicate 7 no_iface;
  num_ifaces = 1;
  strings = record { string_index = 2; string_desc = blob 77 0 126 } ∷ replicate 15 no_string;
  num_strings = 1;
}

mouse-IsCaptured : IsCaptured mouse
mouse-IsCaptured = record {
  langid_word = omega arith;
  device = record { room = omega arith; whole = refl; tail = refl };
  config = record { room = omega arith; whole = refl; tail = refl };
  langids = record { room = omega arith; whole = refl; tail = refl };
  bos = record { room = omega arith; whole = refl; tail = refl };
  ms_os = record { room = omega arith; whole = refl; tail = refl };
  some_ifaces = omega arith;
  ifaces_room = refl;
  ifaces_tail = refl;
  ifaces_good =
      also
        (record {
          in_word = omega arith;
          out_word = omega arith;
          report = record { room = omega arith; whole = refl; tail = refl };
        })
        nothing;
  some_strings = omega arith;
  strings_room = refl;
  strings_tail = refl;
  strings_good = also (record { room = omega arith; whole = refl; tail = refl }) nothing;
}

desc_deserialize-desc_serialize_example : over_wire mouse 8192 ≡ some mouse
desc_deserialize-desc_serialize_example =
    desc_deserialize-desc_serialize mouse 8192 mouse-IsCaptured (omega arith)

-- The code fails whole where a byte is missing.
desc_serialize_lem_example :
    (desc_serialize mouse 40
      ≡ (if ltb 40 (length (captured_bytes mouse)) then none else some (captured_bytes mouse)))
    × (length (captured_bytes mouse) ≤ 7136)
desc_serialize_lem_example = desc_serialize_lem mouse 40
