-- ===== src/Actions/Mouse/Clicks.antt =====
-- A click sequence from its start to its end: src/actions.c, act_click and act_click_tick.
pub mod Bits
pub mod Run
use hurra_v.Base.{
  ℕ, zero, suc, ◌+◌, ◌-◌, ◌*◌, ◌%◌, ◌^◌, ◌≤◌, ◌<◌, ◌≡◌, refl, ap, ◌∙◌, sym, subst, arith, Bool,
  true, false, not, ◌&&◌, bit_or, every, every_lem,
}
use hurra_v.Base.{
  List, [], ◌∷◌, ◌++◌, append_assoc, ◌==◌, ltb, leb, ◌/◌, if◌then◌else◌, length, ltb→lt, Bool-cases,
  inl, inr,
}
use hurra_v.Timing.{time_deadline_reached}
use hurra_v.Actions.Mouse.{
  Mouse, Move, still, idle, release, btn_idx_to_mask, end_click, act_click, act_click_tick,
}
use hurra_v.Actions.Mouse.Clicks.Bits.{
  without, with_bit, unfinished, before, bits_lem, end_click_lem,
}
use hurra_v.Actions.Mouse.Clicks.Run.{ended, clicks, ticks, all_due, end_click-lt, click_runs}

-- `n + 1` clicks of a button from 1 to 5, on a mouse whose button byte is a byte, and then `2 n + 1`
-- ticks, each at or after the deadline that is then set. If a sequence of another button was unfinished
-- with its button down, that button is let go first, in the state and by a report of its own. Then come
-- exactly `n + 1` presses of the button that are each followed by a release, and no other report. At the
-- end no sequence is left, the button is up, and the other buttons, but for the one let go, are as before.
-- A button is bit `i` of the byte for button `i + 1`.
pub click_ends :
    (m : Mouse) (i n delay_ms now : ℕ) (ts : List ℕ)
    → m.buttons < 256
    → i < 5
    → length ts ≡ 2 * n + 1
    → all_due (act_click m (i + 1) (n + 1) delay_ms now).0 ts ≡ true
    → ((ticks (act_click m (i + 1) (n + 1) delay_ms now).0 ts).0
        ≡ record m { buttons = without (before m i) i; click = idle })
      × ((act_click m (i + 1) (n + 1) delay_ms now).1
            ++ (ticks (act_click m (i + 1) (n + 1) delay_ms now).0 ts).1
          ≡ (if unfinished m i then still (before m i) ∷ [] else [])
            ++ (still (with_bit (before m i) i)
                ∷ clicks (without (before m i) i) (with_bit (before m i) i) n))
click_ends m i n delay_ms now ts hb hi l d =
    let mask = btn_idx_to_mask (i + 1) in
    let e = end_click_lem m i hb hi in
    let small = subst (λ q. q.0.buttons < 256) e (end_click-lt m mask hb) in
    let b = bits_lem (before m i) i small hi in
    let first = if unfinished m i then still (before m i) ∷ [] else [] in
    let run = click_runs m i n delay_ms now ts hb hi l d in
    (
      run.0
          ∙ (ap (λ (q : Mouse × List Move). ended q.0 (i + 1) q.0.buttons) e
              ∙ ap (λ (q : ℕ). record m { buttons = q; click = idle }) b.0),
      run.1
          ∙ (ap
                (λ (q : Mouse × List Move).
                  q.1
                  ++ (still (bit_or q.0.buttons mask)
                      ∷ clicks (release q.0.buttons mask) (bit_or q.0.buttons mask) n))
                e
              ∙ (ap
                    (λ (q : ℕ).
                      first
                      ++ (still (bit_or (before m i) mask) ∷ clicks q (bit_or (before m i) mask) n))
                    b.0
                  ∙ ap (λ (q : ℕ). first ++ (still q ∷ clicks (without (before m i) i) q n)) b.1)),
    )
