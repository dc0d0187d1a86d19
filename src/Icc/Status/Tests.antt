-- ===== src/Icc/Status/Tests.antt =====
-- The status channel on a concrete status.
use hurra_v.Base.{◌%◌, ◌^◌, ◌≡◌, arith}
use hurra_v.Base.Int.{negsuc, pos}
use hurra_v.Icc.Status.{Status, payload, merge, icc_status_pack, icc_status_unpack}
use hurra_v.Icc.Status.Rotation.{rounds, seen, rotation_shows, icc_status_unpack-icc_status_pack}

abbrev running : Status
running = record {
  state = 3;
  vid = 0x46d;
  pid = 0xc547;
  reports_per_sec = 8000;
  drops = 2;
  zerolen = 0;
  probe = 13;
  gotmask = 1;
  wedge = 0;
  cap_speed = 2;
  dev_enum = 1;
  dev_speed = 2;
  dev_temp_c = negsuc 4;
  dev_link = 1;
  human_warmth = 2;
  human_replay_pct = 40;
}

abbrev blank : Status
blank = record {
  state = 0;
  vid = 0;
  pid = 0;
  reports_per_sec = 0;
  drops = 0;
  zerolen = 0;
  probe = 0;
  gotmask = 0;
  wedge = 0;
  cap_speed = 0;
  dev_enum = 0;
  dev_speed = 0;
  dev_temp_c = pos 0;
  dev_link = 0;
  human_warmth = 0;
  human_replay_pct = 0;
}

rotation_shows_example :
    rounds 12 (record { sel = 0; seq = 254; last_state = 3 }) running 1 blank ≡ seen running
rotation_shows_example =
    rotation_shows 254 1 running blank (omega arith) (omega arith) (omega arith, omega arith)

icc_status_unpack-icc_status_pack_example :
    icc_status_unpack (icc_status_pack 9 7 running) blank
    ≡ (3, merge 9 (payload 9 running % 2 ^ 10) blank)
icc_status_unpack-icc_status_pack_example =
    icc_status_unpack-icc_status_pack 9 7 running blank (omega arith)
