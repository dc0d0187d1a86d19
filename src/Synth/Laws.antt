-- ===== src/Synth/Laws.antt =====
-- The synthetic mouse crosses the link whole, and its pointer comes back to where it was.
use hurra_v.Base.{
  ℕ, zero, suc, ◌+◌, ◌*◌, ◌%◌, ◌≤◌, ◌≡◌, refl, ap, ap₂, ◌∙◌, arith, true, ◌&&◌, get_or, some, every,
  every_lem,
}
use hurra_v.Base.Int.{ℤ, pos, ◌+ℤ◌, of_word, is_zero}
use hurra_v.Serial.Read.RoundTrip.{
  nothing, also, IsCaptured, over_wire, desc_deserialize-desc_serialize,
}
use hurra_v.Synth.{synth_mouse_build_descriptors, synth_mouse_next_report}

build_descriptors-IsCaptured : IsCaptured synth_mouse_build_descriptors
unfolding synth_mouse_build_descriptors
build_descriptors-IsCaptured = record {
  langid_word = omega arith;
  device = record { room = omega arith; whole = refl; tail = refl };
  config = record { room = omega arith; whole = refl; tail = refl };
  langids = record { room = omega arith; whole = refl; tail = refl };
  bos = record { room = omega arith; whole = refl; tail = refl };
  ms_os = record { room = omega arith; whole = refl; tail = refl };
  some_ifaces = omega arith;
  ifaces_room = refl;
  ifaces_tail = refl;
  ifaces_good =
      also
        (record {
          in_word = omega arith;
          out_word = omega arith;
          report = record { room = omega arith; whole = refl; tail = refl };
        })
        nothing;
  some_strings = omega arith;
  strings_room = refl;
  strings_tail = refl;
  strings_good = nothing;
}

-- The descriptors of the synthetic mouse, written to a buffer of 7136 bytes or more, are read back whole
-- on the other board.
pub build_descriptors_cross :
    (out_cap : ℕ)
    → 7136 ≤ out_cap
    → over_wire synth_mouse_build_descriptors out_cap ≡ some synth_mouse_build_descriptors
build_descriptors_cross out_cap h =
    desc_deserialize-desc_serialize synth_mouse_build_descriptors out_cap
      build_descriptors-IsCaptured h

-- How far `n` reports from a tick on move the pointer: the second and third byte of each, as `int8_t`.
pub drift : ℕ → ℕ → ℤ × ℤ
drift zero tick = (pos 0, pos 0)
drift (suc n) tick =
    let report = synth_mouse_next_report tick in
    let rest = drift n (tick + 1) in
    (of_word 8 (get_or report 1 0) +ℤ rest.0, of_word 8 (get_or report 2 0) +ℤ rest.1)

next_report_phase :
    (t u : ℕ) → t % 8 ≡ u % 8 → synth_mouse_next_report t ≡ synth_mouse_next_report u
unfolding synth_mouse_next_report
next_report_phase t u e = rw e refl

drift_phase : (n t u : ℕ) → t % 8 ≡ u % 8 → drift n t ≡ drift n u
unfolding drift
drift_phase zero t u e = refl
drift_phase (suc n) t u e =
    rw (next_report_phase t u e, drift_phase n (t + 1) (u + 1) (omega arith)) refl

loop_table : every 8 (λ p. is_zero (drift 8 p).0 && is_zero (drift 8 p).1) ≡ true
unfolding every drift synth_mouse_next_report
loop_table = refl

zeros : (x y : ℤ) → (is_zero x && is_zero y) ≡ true → (x ≡ pos 0) × (y ≡ pos 0)
zeros x y z = ground (arith, z)

loop : (t : ℕ) → ((drift 8 t).0 ≡ pos 0) × ((drift 8 t).1 ≡ pos 0)
loop t =
    let e = drift_phase 8 t (t % 8) (omega arith) in
    let z =
      every_lem 8 (λ p. is_zero (drift 8 p).0 && is_zero (drift 8 p).1) (t % 8) loop_table
        (omega arith) in
    let both = zeros (drift 8 (t % 8)).0 (drift 8 (t % 8)).1 z in
    (ap (λ (q : ℤ × ℤ). q.0) e ∙ both.0, ap (λ (q : ℤ × ℤ). q.1) e ∙ both.1)

add_assoc : (a b c : ℤ) → a +ℤ (b +ℤ c) ≡ a +ℤ b +ℤ c
add_assoc a b c = ground arith

zero_add : (a : ℤ) → a ≡ pos 0 +ℤ a
zero_add a = ground arith

abbrev Sum : ℤ × ℤ → ℤ × ℤ → ℤ × ℤ → Type 0
Sum all first rest = (all.0 ≡ first.0 +ℤ rest.0) × (all.1 ≡ first.1 +ℤ rest.1)

drift_split :
    (m n all t u : ℕ) → m + n ≡ all → t + m ≡ u → Sum (drift all t) (drift m t) (drift n u)
unfolding drift
drift_split zero n all t u e f =
    let g : all ≡ n = omega (arith, e) in
    let h : t ≡ u = omega (arith, f) in rw (g, h) (zero_add (drift n u).0, zero_add (drift n u).1)
drift_split (suc m) n zero t u e f = absurd (omega arith)
drift_split (suc m) n (suc all) t u e f =
    let r = synth_mouse_next_report t in
    let l = drift_split m n all (t + 1) u (omega arith) (omega arith) in
    (
      ap (λ (q : ℤ). of_word 8 (get_or r 1 0) +ℤ q) l.0
          ∙ add_assoc (of_word 8 (get_or r 1 0)) (drift m (t + 1)).0 (drift n u).0,
      ap (λ (q : ℤ). of_word 8 (get_or r 2 0) +ℤ q) l.1
          ∙ add_assoc (of_word 8 (get_or r 2 0)) (drift m (t + 1)).1 (drift n u).1,
    )

drift_zero : (t : ℕ) → drift 0 t ≡ (pos 0, pos 0)
unfolding drift
drift_zero t = refl

-- Any multiple of eight reports, from any tick on, brings the pointer back to where it was.
pub drift_returns :
    (k n tick : ℕ) → n ≡ 8 * k → ((drift n tick).0 ≡ pos 0) × ((drift n tick).1 ≡ pos 0)
drift_returns zero n tick e =
    let z : n ≡ 0 = omega (arith, e) in rw (z, drift_zero tick) (refl, refl)
drift_returns (suc k) n tick e =
    let one = loop tick in
    let l = drift_split 8 (8 * k) n tick (tick + 8) (omega arith) (omega arith) in
    let more = drift_returns k (8 * k) (tick + 8) (omega arith) in
    (l.0 ∙ (ap₂ (◌+ℤ◌) one.0 more.0), l.1 ∙ (ap₂ (◌+ℤ◌) one.1 more.1))
