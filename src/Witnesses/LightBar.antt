-- ===== src/Witnesses/LightBar.antt =====
-- Reports of the DualShock 4.
use mfi_wrapper.Prelude.{map}
use mfi_wrapper.HidPad.Effect.{Outcome, pauses, presses, run}
use mfi_wrapper.HidPad.DualShock4.Laws.{ps_of, step, dual_shock4_pauses}
use mfi_wrapper.Prelude.{ℕ, ◌≡◌, true, false, List, [], ◌∷◌, some, replicate, if◌then◌else◌}
use mfi_wrapper.Prelude.Int.{ℤ}
use mfi_wrapper.Protocol.{InputState}
use mfi_wrapper.HidPad.Effect.{states}
use mfi_wrapper.HidPad.Range.{AllInRange}
use mfi_wrapper.Witnesses.Fixed.{thousandths, thousandths_laws}
use mfi_wrapper.HidPad.DualShock4.{
  DualShock4, handle_packet, is_ignored, Result, initial_report_buffer,
}
use mfi_wrapper.HidPad.DualShock4.Laws.{dual_shock4_in_range}

-- A report with the PS button down, of the size that is read.
abbrev report : List ℕ
report = 0 ∷ 0x11 ∷ 0xC0 ∷ 0 ∷ 10 ∷ 128 ∷ 128 ∷ 240 ∷ 8 ∷ 0 ∷ 1 ∷ replicate 68 0

abbrev second_player : DualShock4
second_player = record { pause_held = false; player_index = 1; need_set_report = true }

abbrev no_player : DualShock4
no_player = record { pause_held = true; player_index = 255; need_set_report = true }

dual_shock4_in_range_example :
    (r : Result ℤ) × (i : InputState ℤ) × (handle_packet thousandths initial_report_buffer
        second_player report 79
      ≡ some r)
    × (states r.outcome.effects ≡ (if is_ignored report 79 then [] else i ∷ []))
    × AllInRange thousandths thousandths_laws i
dual_shock4_in_range_example =
    dual_shock4_in_range thousandths thousandths_laws initial_report_buffer second_player report 79

dual_shock4_pauses_example :
    (r : Outcome (List ℕ × DualShock4) ℤ) × (run
        (step thousandths)
        (initial_report_buffer, second_player)
        ((report, 79) ∷ [])
      ≡ some r)
    × (pauses r.effects ≡ presses false (map ps_of ((report, 79) ∷ [])))
dual_shock4_pauses_example =
    dual_shock4_pauses thousandths initial_report_buffer second_player ((report, 79) ∷ [])
