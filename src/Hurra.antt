-- ===== src/Hurra.antt =====
-- src/hurra.c: the listeners of the binary protocol. The framing is that of the TinyFrame library: a
-- message comes in as its type, its id and its data, and goes out as one.
pub mod Listeners
pub mod Dispatch
pub mod Notify
mod Tests
use hurra_v.Base.{ℕ, ◌+◌, ◌-◌, ◌*◌, ◌/◌, ◌%◌, ◌^◌, Bool, true, false, bit_or, bit_xor}
use hurra_v.Base.{List, [], ◌∷◌, ◌++◌, get_or, length, replicate, ◌==◌, if◌then◌else◌}
use hurra_v.Base.Int.{ℤ, pos, of_word, to_word}
use hurra_v.Actions.Keys.{Snapshot, Keyboard}
use hurra_v.Actions.Mouse.{Move, Mouse}
use hurra_v.Actions.Pump.{Actions}

-- The fields of `TF_Msg` that are used.
pub record Msg : Type 0 where
  pub kind : ℕ
  pub frame_id : ℕ
  pub bytes : List ℕ

-- The counters, but for the one of the ring.
pub record Stats : Type 0 where
  pub rx_frames_ok : ℕ
  pub head_crc_err : ℕ
  pub payload_crc_err : ℕ
  pub id_gap_total : ℕ
  pub idle_resync : ℕ
  pub payload_invalid : ℕ
  pub tx_ring_skip : ℕ

abbrev pub no_stats : Stats
no_stats = record {
  rx_frames_ok = 0;
  head_crc_err = 0;
  payload_crc_err = 0;
  id_gap_total = 0;
  idle_resync = 0;
  payload_invalid = 0;
  tx_ring_skip = 0;
}

-- `s_catch`
pub record Catch : Type 0 where
  pub active : Bool
  pub deadline : ℕ
  pub accum_x : ℤ
  pub accum_y : ℤ
  pub reply_id : ℕ

-- The variables of the file, and those of src/actions.c.
pub record Hurra : Type 0 where
  pub stats : Stats
  pub last_rx_id : ℕ
  pub have_last_id : Bool
  pub reboot_at : ℕ
  pub reboot_scheduled : Bool
  pub baud_pending : ℕ
  pub baud_apply_at : ℕ
  pub baud_scheduled : Bool
  pub cb_buttons : Bool
  pub cb_axes : Bool
  pub cb_keys : Bool
  pub cb_phys : Bool
  pub last_btn_emitted : ℕ
  pub last_keys_emitted : List ℕ
  pub screen_w : ℤ
  pub screen_h : ℤ
  pub catch : Catch
  pub rng_state : ℕ
  pub actions : Actions

-- What is read of the serial port: its rate, its overruns, and the room for what is sent.
pub record Uart : Type 0 where
  pub current_baud : ℕ
  pub rx_drv_overrun : ℕ
  pub tx_room : ℕ

-- A response to a request, a frame of telemetry, injected input, a new rate, or the reset.
pub data Effect : Type 0 where
  respond : Msg → Effect
  send : Msg → Effect
  moved : Move → Effect
  typed : Snapshot → Effect
  set_baud : ℕ → Effect
  reset : Effect

abbrev pub Outcome : Type 0
Outcome = Hurra × List Effect

abbrev pub rd_u16le : List ℕ → ℕ → ℕ
rd_u16le b i = bit_or (get_or b i 0) (get_or b (i + 1) 0 * 2 ^ 8)

abbrev pub rd_i16le : List ℕ → ℕ → ℤ
rd_i16le b i = of_word 16 (rd_u16le b i)

abbrev pub rd_u32le : List ℕ → ℕ → ℕ
rd_u32le b i =
    bit_or (bit_or (rd_u16le b i) (get_or b (i + 2) 0 * 2 ^ 16)) (get_or b (i + 3) 0 * 2 ^ 24)

abbrev pub wr_u32le : ℕ → List ℕ
wr_u32le n = n % 256 ∷ n / 2 ^ 8 % 256 ∷ n / 2 ^ 16 % 256 ∷ n / 2 ^ 24 % 256 ∷ []

abbrev pub wr_i16le : ℤ → List ℕ
wr_i16le v = to_word 16 v % 256 ∷ to_word 16 v / 2 ^ 8 ∷ []

abbrev pub flag_byte : Bool → ℕ
flag_byte v = if v then 1 else 0

-- The type and the id of the request go back with the data.
abbrev pub send_reply : Msg → List ℕ → List Effect
send_reply req content = respond (record req { bytes = content }) ∷ []

-- The counter of frames, and the gap of the ids.
unfoldable pub track_id : Hurra → ℕ → Hurra
track_id h id = record h {
  stats = record h.stats {
    rx_frames_ok = (h.stats.rx_frames_ok + 1) % 2 ^ 32;
    id_gap_total =
        if h.have_last_id
        then (h.stats.id_gap_total + (id + 511 - h.last_rx_id) % 256) % 2 ^ 32
        else h.stats.id_gap_total;
  };
  last_rx_id = id;
  have_last_id = true;
}

abbrev pub invalid : Hurra → Outcome
invalid h = (
  record h { stats = record h.stats { payload_invalid = (h.stats.payload_invalid + 1) % 2 ^ 32 } },
  [],
)

abbrev pub bits32 : ℕ → ℕ
bits32 n = n % 2 ^ 32

-- xorshift32
unfoldable pub rng_next : ℕ → ℕ
rng_next s =
    let a = bit_xor s (bits32 (s * 2 ^ 13)) in
    let b = bit_xor a (a / 2 ^ 17) in bit_xor b (bits32 (b * 2 ^ 5))

pub hurra_init : Hurra → Hurra
hurra_init h = record h {
  stats = no_stats;
  have_last_id = false;
  reboot_at = 0;
  reboot_scheduled = false;
  baud_pending = 0;
  baud_apply_at = 0;
  baud_scheduled = false;
  cb_buttons = false;
  cb_axes = false;
  cb_keys = false;
  cb_phys = false;
  last_keys_emitted = replicate 6 0;
  screen_w = pos 0;
  screen_h = pos 0;
  catch = record { active = false; deadline = 0; accum_x = pos 0; accum_y = pos 0; reply_id = 0 };
}
