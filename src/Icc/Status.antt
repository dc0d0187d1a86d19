-- ===== src/Icc/Status.antt =====
-- src/icc_status.c, and the two ends of the status channel in src/icc.c.
pub mod Rotation
mod Tests
use hurra_v.Base.{
  ℕ, ◌+◌, ◌*◌, ◌/◌, ◌%◌, ◌^◌, min, Bool, true, false, not, bit_or, ltb, ◌==◌, if◌then◌else◌,
}
use hurra_v.Base.Int.{ℤ, to_word, of_word}

-- `ICC_ST_SEL__COUNT`
abbrev pub selectors : ℕ
selectors = 12

-- The fields of `display_status_t` that the channel carries.
pub record Status : Type 0 where
  pub state : ℕ
  pub vid : ℕ
  pub pid : ℕ
  pub reports_per_sec : ℕ
  pub drops : ℕ
  pub zerolen : ℕ
  pub probe : ℕ
  pub gotmask : ℕ
  pub wedge : ℕ
  pub cap_speed : ℕ
  pub dev_enum : ℕ
  pub dev_speed : ℕ
  pub dev_temp_c : ℤ
  pub dev_link : ℕ
  pub human_warmth : ℕ
  pub human_replay_pct : ℕ

-- The `switch` of `icc_status_pack`. A mask of the low bits is a remainder.
unfoldable pub payload : ℕ → Status → ℕ
payload sel st =
    if sel == 0
    then st.state % 8
    else if sel == 1
    then st.vid / 2 ^ 8 % 256
    else if sel == 2
    then st.vid % 256
    else if sel == 3
    then st.pid / 2 ^ 8 % 256
    else if sel == 4
    then st.pid % 256
    else if sel == 5
    then (if ltb 1023 st.reports_per_sec then 1023 else st.reports_per_sec)
    else if sel == 6
    then (if ltb 1023 st.drops then 1023 else st.drops)
    else if sel == 7
    then bit_or (st.probe % 16 * 2 ^ 4) (st.gotmask % 16)
    else if sel == 8
    then (if ltb 1023 st.wedge then 1023 else st.wedge)
    else if sel == 9
    then bit_or (st.cap_speed % 4 * 2 ^ 2) (st.dev_speed % 4)
    else if sel == 10
    then bit_or (bit_or (st.dev_link % 2 * 2 ^ 9) (st.dev_enum % 2 * 2 ^ 8))
        (to_word 8 st.dev_temp_c)
    else if sel == 11
    then bit_or (st.human_warmth % 4 * 2 ^ 8)
        (if ltb 100 st.human_replay_pct then 100 else st.human_replay_pct)
    else 0

pub icc_status_pack : ℕ → ℕ → Status → ℕ
icc_status_pack sel seq st =
    bit_or (bit_or (seq % 4 * 2 ^ 14) (sel % 16 * 2 ^ 10)) (payload sel st % 2 ^ 10)

-- The `switch` of `icc_status_unpack`.
unfoldable pub merge : ℕ → ℕ → Status → Status
merge sel payload acc =
    if sel == 0
    then record acc { state = payload % 8 }
    else if sel == 1
    then record acc { vid = bit_or (acc.vid % 256) (payload * 2 ^ 8) % 2 ^ 16 }
    else if sel == 2
    then record acc { vid = bit_or (acc.vid / 256 % 256 * 2 ^ 8) (payload % 256) }
    else if sel == 3
    then record acc { pid = bit_or (acc.pid % 256) (payload * 2 ^ 8) % 2 ^ 16 }
    else if sel == 4
    then record acc { pid = bit_or (acc.pid / 256 % 256 * 2 ^ 8) (payload % 256) }
    else if sel == 5
    then record acc { reports_per_sec = payload }
    else if sel == 6
    then record acc { drops = payload }
    else if sel == 7
    then record acc {
      probe = payload / 2 ^ 4 % 16;
      gotmask = payload % 16;
      zerolen = payload / 2 ^ 4 % 16 % 2;
    }
    else if sel == 8
    then record acc { wedge = payload }
    else if sel == 9
    then record acc { cap_speed = payload / 2 ^ 2 % 4; dev_speed = payload % 4 }
    else if sel == 10
    then record acc {
      dev_link = payload / 2 ^ 9 % 2;
      dev_enum = payload / 2 ^ 8 % 2;
      dev_temp_c = of_word 8 (payload % 256);
    }
    else if sel == 11
    then record acc { human_warmth = payload / 2 ^ 8 % 4; human_replay_pct = payload % 256 }
    else acc

pub icc_status_unpack : ℕ → Status → ℕ × Status
icc_status_unpack word acc = (word / 2 ^ 14 % 4, merge (word / 2 ^ 10 % 16) (word % 2 ^ 10) acc)

-- `s_sel`, `s_seq` and `s_last_state`
pub record Pump : Type 0 where
  pub sel : ℕ
  pub seq : ℕ
  pub last_state : ℕ

-- The word is the upper half of the status register, which only this core writes. The code clears that half
-- and then sets it; the word here is the one after both stores.
pub icc_status_pump_v5f : Pump → Status → Pump × ℕ
icc_status_pump_v5f p st =
    let seq = (p.seq + 1) % 256 in
    let sel = if not (st.state == p.last_state) then 0 else p.sel in
    (
      record { sel = (p.sel + 1) % selectors; seq = seq; last_state = st.state },
      icc_status_pack sel seq st,
    )

-- The new `s_last_seq`, what was read, and whether the sequence number advanced.
pub icc_status_poll_v3f : ℕ → ℕ → Status → ℕ × Status × Bool
icc_status_poll_v3f last_seq word acc =
    let (seq, status) = icc_status_unpack word acc in (seq, status, not (seq == last_seq))
