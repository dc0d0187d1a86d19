-- ===== src/Timing.antt =====
-- src/time_deadline.h, src/usb_host_time.h and src/usb_desc_interval.h: times on counters that wrap.
pub mod Laws
mod Tests
use hurra_v.Base.{ℕ, ◌+◌, ◌-◌, ◌*◌, ◌%◌, ◌^◌, Bool, ltb, leb, ◌==◌, if◌then◌else◌}

-- `USB_SPEED_HIGH`
abbrev pub speed_high : ℕ
speed_high = 2

-- The conversion to `int32_t` keeps the bits, so the test is on the sign bit.
unfoldable pub time_deadline_reached : ℕ → ℕ → Bool
time_deadline_reached now deadline = ltb ((now + 2 ^ 32 - deadline) % 2 ^ 32) (2 ^ 31)

pub usbhs_remaining_us : ℕ → ℕ → ℕ → ℕ
usbhs_remaining_us now_us start_us budget_us =
    let elapsed = (now_us + 2 ^ 32 - start_us) % 2 ^ 32 in
    if leb budget_us elapsed then 0 else budget_us - elapsed

pub interval_to_us : ℕ → ℕ → ℕ
interval_to_us interval speed =
    let some_interval = if interval == 0 then 1 else interval in
    if speed == speed_high
    then (let clamped = if ltb 16 some_interval then 16 else some_interval in
        2 ^ (clamped - 1) * 125 % 2 ^ 32)
    else (let clamped = if ltb 255 some_interval then 255 else some_interval in clamped * 1000)
