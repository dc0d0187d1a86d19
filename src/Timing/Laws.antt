-- ===== src/Timing/Laws.antt =====
-- The wrap of the counter makes no difference.
use hurra_v.Base.{ℕ, ◌+◌, ◌-◌, ◌%◌, ◌^◌, ◌<◌, ◌≡◌, arith, leb}
use hurra_v.Timing.{time_deadline_reached, usbhs_remaining_us}

-- A deadline `ahead` milliseconds after a time, at most half the counter's range, is reached `late`
-- milliseconds after that time exactly when `late` is `ahead` or more, for as long as it is less than
-- half the range past it: wherever the counter wraps in between.
pub deadline_reached_lem :
    (base ahead late : ℕ)
    → base < 2 ^ 32
    → ahead < 2 ^ 31
    → late < ahead + 2 ^ 31
    → time_deadline_reached ((base + late) % 2 ^ 32) ((base + ahead) % 2 ^ 32) ≡ leb ahead late
unfolding time_deadline_reached
deadline_reached_lem base ahead late hb ha hl = ground arith

-- What is left of a budget after `elapsed` microseconds is the budget less them, and 0 once it is
-- spent, wherever the counter wraps in between.
pub remaining_us_lem :
    (start elapsed budget : ℕ)
    → start < 2 ^ 32
    → elapsed < 2 ^ 32
    → usbhs_remaining_us ((start + elapsed) % 2 ^ 32) start budget ≡ budget - elapsed
unfolding usbhs_remaining_us
remaining_us_lem start elapsed budget hs he = ground arith
