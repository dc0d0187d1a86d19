-- ===== src/Timing/Tests.antt =====
-- Deadlines and budgets across the wrap of the counter, and poll periods.
use hurra_v.Base.{◌≡◌, refl, false}
use hurra_v.Timing.{time_deadline_reached, usbhs_remaining_us, interval_to_us}

across_the_wrap : (time_deadline_reached 4 14 ≡ false) × (usbhs_remaining_us 14 4294967290 50 ≡ 30)
unfolding time_deadline_reached usbhs_remaining_us
across_the_wrap = (refl, refl)

-- 2^3 * 125 us at high speed, and the clamped extremes.
intervals :
    (interval_to_us 4 2 ≡ 1000)
    × (interval_to_us 0 2 ≡ 125)
    × (interval_to_us 200 2 ≡ 4096000)
    × (interval_to_us 8 1 ≡ 8000)
unfolding interval_to_us
intervals = (refl, refl, refl, refl)
