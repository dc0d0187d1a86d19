-- ===== src/Synth/Tests.antt =====
-- The synthetic mouse on concrete inputs.
use hurra_v.Base.{◌≡◌, refl, [], ◌∷◌}
use hurra_v.Synth.{synth_mouse_next_report}

fourth_report : synth_mouse_next_report 11 ≡ 0 ∷ 253 ∷ 3 ∷ []
unfolding synth_mouse_next_report
fourth_report = refl
