-- ===== src/Icc/Status/Rotation.antt =====
-- What the reader knows after the writer has gone once round the fields.
use hurra_v.Base.{
  ℕ, zero, suc, ◌+◌, ◌*◌, ◌/◌, ◌%◌, ◌^◌, ◌≤◌, ◌<◌, ◌≡◌, min, refl, ap, ◌∙◌, arith, true, not,
  bit_or, bit_or_high_low, bit_or_low_high, ltb, ◌==◌, if◌then◌else◌,
}
use hurra_v.Base.Int.{ℤ, pos, negsuc, plus, minus, to_word, of_word}
use hurra_v.Icc.Status.{
  Status, Pump, selectors, payload, merge, icc_status_pack, icc_status_unpack, icc_status_pump_v5f,
  icc_status_poll_v3f,
}

pack-eq :
    (sel seq p : ℕ)
    → sel < 16
    → p < 2 ^ 10
    → bit_or (bit_or (seq % 4 * 2 ^ 14) (sel % 16 * 2 ^ 10)) p ≡ seq % 4 * 2 ^ 14 + sel * 2 ^ 10 + p
pack-eq sel seq p h k =
    let a : bit_or (seq % 4 * 2 ^ 14) (sel % 16 * 2 ^ 10) ≡ seq % 4 * 2 ^ 14 + sel * 2 ^ 10 =
      bit_or_high_low 14 (seq % 4) (sel % 16 * 2 ^ 10) (omega arith) ∙ omega arith in
    let b : seq % 4 * 2 ^ 14 + sel * 2 ^ 10 ≡ (seq % 4 * 16 + sel) * 2 ^ 10 = omega arith in
    ap (λ (q : ℕ). bit_or q p) (a ∙ b) ∙ (bit_or_high_low 10 (seq % 4 * 16 + sel) p k ∙ omega arith)

-- A field that was packed is merged as it was packed, cut to ten bits.
pub icc_status_unpack-icc_status_pack :
    (sel seq : ℕ) (st acc : Status)
    → sel < 16
    → icc_status_unpack (icc_status_pack sel seq st) acc
      ≡ (seq % 4, merge sel (payload sel st % 2 ^ 10) acc)
unfolding icc_status_unpack icc_status_pack
icc_status_unpack-icc_status_pack sel seq st acc h =
    let p = payload sel st % 2 ^ 10 in
    let e = pack-eq sel seq p h (omega arith) in
    let a : (seq % 4 * 2 ^ 14 + sel * 2 ^ 10 + p) / 2 ^ 14 % 4 ≡ seq % 4 = omega arith in
    let b : (seq % 4 * 2 ^ 14 + sel * 2 ^ 10 + p) / 2 ^ 10 % 16 ≡ sel = omega arith in
    let c : (seq % 4 * 2 ^ 14 + sel * 2 ^ 10 + p) % 2 ^ 10 ≡ p = omega arith in rw (e, a, b, c) refl

-- High byte, then low byte.
vid_back :
    (old v : ℕ)
    → v < 2 ^ 16
    → bit_or
        ((bit_or (old % 256) (v / 2 ^ 8 % 256 % 2 ^ 10 * 2 ^ 8) % 2 ^ 16) / 256 % 256 * 2 ^ 8)
        (v % 256 % 2 ^ 10 % 256)
      ≡ v
vid_back old v h =
    let a = bit_or_low_high 8 (v / 2 ^ 8 % 256 % 2 ^ 10) (old % 256) (omega arith) in
    rw a (
      bit_or_high_low 8 ((v / 2 ^ 8 % 256 % 2 ^ 10 * 2 ^ 8 + old % 256) % 2 ^ 16 / 256 % 256)
        (v % 256 % 2 ^ 10 % 256) (omega arith)
      ∙ omega arith)

-- One poll after each of `n` pumps.
pub rounds : ℕ → Pump → Status → ℕ → Status → Status
rounds zero p st last acc = acc
rounds (suc n) p st last acc =
    let sent = icc_status_pump_v5f p st in
    let got = icc_status_poll_v3f last sent.1 acc in rounds n sent.0 st got.0 got.1

abbrev carry : ℕ → Status → Status → Status
carry sel st acc = merge sel (payload sel st % 2 ^ 10) acc

abbrev next : Pump → Status → Pump
next p st = record { sel = (p.sel + 1) % selectors; seq = (p.seq + 1) % 256; last_state = st.state }

round_sends :
    (p : Pump) (st : Status) (last : ℕ) (acc : Status)
    → (st.state == p.last_state) ≡ true
    → p.sel < 16
    → icc_status_poll_v3f last (icc_status_pump_v5f p st).1 acc
      ≡ ((p.seq + 1) % 256 % 4, carry p.sel st acc, not ((p.seq + 1) % 256 % 4 == last))
unfolding icc_status_pump_v5f icc_status_poll_v3f
round_sends p st last acc e h =
    rw (e, icc_status_unpack-icc_status_pack p.sel ((p.seq + 1) % 256) st acc h) refl

rounds_step :
    (n : ℕ) (p : Pump) (st : Status) (last : ℕ) (acc : Status)
    → (st.state == p.last_state) ≡ true
    → p.sel < 16
    → rounds (suc n) p st last acc
      ≡ rounds n (next p st) st ((p.seq + 1) % 256 % 4) (carry p.sel st acc)
unfolding rounds icc_status_pump_v5f
rounds_step n p st last acc e h = rw (round_sends p st last acc e h) refl

-- What the reader can know of a status.
pub seen : Status → Status
seen st = record {
  state = st.state % 8;
  vid = st.vid;
  pid = st.pid;
  reports_per_sec = min st.reports_per_sec 1023;
  drops = min st.drops 1023;
  zerolen = st.probe % 2;
  probe = st.probe % 16;
  gotmask = st.gotmask % 16;
  wedge = min st.wedge 1023;
  cap_speed = st.cap_speed % 4;
  dev_enum = st.dev_enum % 2;
  dev_speed = st.dev_speed % 4;
  dev_temp_c = st.dev_temp_c;
  dev_link = st.dev_link % 2;
  human_warmth = st.human_warmth % 4;
  human_replay_pct = min st.human_replay_pct 100;
}

same_state : (n : ℕ) → (n == n) ≡ true
same_state n = ground arith

twelve :
    (seq last : ℕ) (st acc : Status)
    → rounds 12 (record { sel = 0; seq = seq; last_state = st.state }) st last acc
      ≡ carry 11 st (
          carry 10 st (
            carry 9 st (
              carry 8 st (
                carry 7 st (
                  carry 6 st (
                    carry 5 st
                      (carry 4 st (carry 3 st (carry 2 st (carry 1 st (carry 0 st acc)))))))))))
unfolding rounds
twelve seq last st acc =
    let e = same_state st.state in
    rounds_step 11 (record { sel = 0; seq = seq; last_state = st.state }) st last acc e
      (omega arith)
    ∙ (rounds_step 10 _ st _ _ e (omega arith)
        ∙ (rounds_step 9 _ st _ _ e (omega arith)
            ∙ (rounds_step 8 _ st _ _ e (omega arith)
                ∙ (rounds_step 7 _ st _ _ e (omega arith)
                    ∙ (rounds_step 6 _ st _ _ e (omega arith)
                        ∙ (rounds_step 5 _ st _ _ e (omega arith)
                            ∙ (rounds_step 4 _ st _ _ e (omega arith)
                                ∙ (rounds_step 3 _ st _ _ e (omega arith)
                                    ∙ (rounds_step 2 _ st _ _ e (omega arith)
                                        ∙ (rounds_step 1 _ st _ _ e (omega arith)
                                            ∙ rounds_step 0 _ st _ _ e (omega arith)))))))))))

capped : (n : ℕ) → (if ltb 1023 n then 1023 else n) % 2 ^ 10 ≡ min n 1023
capped n = ground arith

state_back : (n : ℕ) → n % 8 % 2 ^ 10 % 8 ≡ n % 8
state_back n = omega arith

probe_or : (a b : ℕ) → bit_or (a % 16 * 2 ^ 4) (b % 16) ≡ a % 16 * 2 ^ 4 + b % 16
probe_or a b = bit_or_high_low 4 (a % 16) (b % 16) (omega arith)

speeds_or : (a b : ℕ) → bit_or (a % 4 * 2 ^ 2) (b % 4) ≡ a % 4 * 2 ^ 2 + b % 4
speeds_or a b = bit_or_high_low 2 (a % 4) (b % 4) (omega arith)

dev_or :
    (a b t : ℕ)
    → t < 256
    → bit_or (bit_or (a % 2 * 2 ^ 9) (b % 2 * 2 ^ 8)) t ≡ a % 2 * 2 ^ 9 + b % 2 * 2 ^ 8 + t
dev_or a b t h =
    let x = bit_or_high_low 9 (a % 2) (b % 2 * 2 ^ 8) (omega arith) in
    let y : a % 2 * 2 ^ 9 + b % 2 * 2 ^ 8 ≡ (a % 2 * 2 + b % 2) * 2 ^ 8 = omega arith in
    ap (λ (q : ℕ). bit_or q t) (x ∙ y) ∙ (bit_or_high_low 8 (a % 2 * 2 + b % 2) t h ∙ omega arith)

human_or :
    (a b : ℕ) → bit_or (a % 4 * 2 ^ 8) (if ltb 100 b then 100 else b) ≡ a % 4 * 2 ^ 8 + min b 100
human_or a b =
    let e : (if ltb 100 b then 100 else b) ≡ min b 100 = ground arith in
    ap (λ (q : ℕ). bit_or (a % 4 * 2 ^ 8) q) e ∙ bit_or_high_low 8 (a % 4) (min b 100) (omega arith)

temp-lt : (t : ℤ) → to_word 8 t < 256
temp-lt (pos n) = omega arith
temp-lt (negsuc n) = omega arith

abbrev pub IsInt8 : ℤ → Type 0
IsInt8 t = (plus t ≤ 127) × (minus t ≤ 128)

temp_back : (t : ℤ) → IsInt8 t → of_word 8 (to_word 8 t) ≡ t
temp_back (pos n) h = ground (arith, h)
temp_back (negsuc n) h = ground (arith, h)

high_4 : (a b : ℕ) → (a % 16 * 2 ^ 4 + b % 16) % 2 ^ 10 / 2 ^ 4 % 16 ≡ a % 16
high_4 a b = omega arith

low_4 : (a b : ℕ) → (a % 16 * 2 ^ 4 + b % 16) % 2 ^ 10 % 16 ≡ b % 16
low_4 a b = omega arith

odd : (a : ℕ) → a % 16 % 2 ≡ a % 2
odd a = omega arith

high_2 : (a b : ℕ) → (a % 4 * 2 ^ 2 + b % 4) % 2 ^ 10 / 2 ^ 2 % 4 ≡ a % 4
high_2 a b = omega arith

low_2 : (a b : ℕ) → (a % 4 * 2 ^ 2 + b % 4) % 2 ^ 10 % 4 ≡ b % 4
low_2 a b = omega arith

dev_parts :
    (a b t : ℕ)
    → t < 256
    → ((a % 2 * 2 ^ 9 + b % 2 * 2 ^ 8 + t) % 2 ^ 10 / 2 ^ 9 % 2 ≡ a % 2)
      × ((a % 2 * 2 ^ 9 + b % 2 * 2 ^ 8 + t) % 2 ^ 10 / 2 ^ 8 % 2 ≡ b % 2)
      × ((a % 2 * 2 ^ 9 + b % 2 * 2 ^ 8 + t) % 2 ^ 10 % 256 ≡ t)
dev_parts a b t h = (omega (arith, h), omega (arith, h), omega (arith, h))

human_parts :
    (a b : ℕ)
    → ((a % 4 * 2 ^ 8 + min b 100) % 2 ^ 10 / 2 ^ 8 % 4 ≡ a % 4)
      × ((a % 4 * 2 ^ 8 + min b 100) % 2 ^ 10 % 256 ≡ min b 100)
human_parts a b = (omega arith, omega arith)

carried :
    (st acc : Status)
    → st.vid < 2 ^ 16
    → st.pid < 2 ^ 16
    → IsInt8 st.dev_temp_c
    → carry 11 st (
        carry 10 st (
          carry 9 st (
            carry 8 st (
              carry 7 st (
                carry 6 st (
                  carry 5 st
                    (carry 4 st (carry 3 st (carry 2 st (carry 1 st (carry 0 st acc)))))))))))
      ≡ seen st
unfolding merge payload seen
carried st acc hv hp ht =
    let d = dev_parts st.dev_link st.dev_enum (to_word 8 st.dev_temp_c) (temp-lt st.dev_temp_c) in
    let m = human_parts st.human_warmth st.human_replay_pct in
    rw
      (
        state_back st.state,
        vid_back acc.vid st.vid hv,
        vid_back acc.pid st.pid hp,
        capped st.reports_per_sec,
        capped st.drops,
        capped st.wedge,
        probe_or st.probe st.gotmask,
        high_4 st.probe st.gotmask,
        low_4 st.probe st.gotmask,
        odd st.probe,
        speeds_or st.cap_speed st.dev_speed,
        high_2 st.cap_speed st.dev_speed,
        low_2 st.cap_speed st.dev_speed,
        dev_or st.dev_link st.dev_enum (to_word 8 st.dev_temp_c) (temp-lt st.dev_temp_c),
        d.0,
        d.1,
        d.2,
        temp_back st.dev_temp_c ht,
        human_or st.human_warmth st.human_replay_pct,
        m.0,
        m.1,
      )
      refl

-- A status that stays the same, published by twelve pumps from the start of the rotation with the state
-- already announced, and polled after each: whatever the reader had, it now has all of the status, with
-- the counts cut to 1023 and the percentage to 100, the small fields to their bits, and `zerolen` from the
-- lowest bit of `probe`.
pub rotation_shows :
    (seq last : ℕ) (st acc : Status)
    → st.vid < 2 ^ 16
    → st.pid < 2 ^ 16
    → IsInt8 st.dev_temp_c
    → rounds 12 (record { sel = 0; seq = seq; last_state = st.state }) st last acc ≡ seen st
rotation_shows seq last st acc hv hp ht = twelve seq last st acc ∙ carried st acc hv hp ht
