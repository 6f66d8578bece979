-- ===== src/Witnesses/WiiPad.antt =====
-- Reports of the Wii U Pro controller.
use mfi_wrapper.Prelude.{map}
use mfi_wrapper.HidPad.Effect.{pauses, presses, run}
use mfi_wrapper.HidPad.WiiUPro.Laws.{home_of, step, wii_u_pro_pauses}
use mfi_wrapper.Prelude.{ℕ, ◌≡◌, true, false, List, [], ◌∷◌, some, replicate, if◌then◌else◌}
use mfi_wrapper.Prelude.Int.{ℤ, pos}
use mfi_wrapper.Protocol.{InputState}
use mfi_wrapper.HidPad.Effect.{Outcome, states}
use mfi_wrapper.HidPad.Range.{AllInRange}
use mfi_wrapper.Witnesses.Fixed.{thousandths, thousandths_laws}
use mfi_wrapper.HidPad.Axis.{Calibration}
use mfi_wrapper.HidPad.WiiUPro.{WiiUPro, Calibrations, handle_packet, is_ignored}
use mfi_wrapper.HidPad.WiiUPro.Laws.{IsCalibrated, wii_u_pro_in_range}

-- What the memory of a new controller may hold: no calibration that could be used.
abbrev garbage : Calibrations
garbage =
    let zeros : Calibration = record { c0 = pos 0; c1 = pos 0; c2 = pos 0; c3 = pos 0 } in
    record { left_x = zeros; left_y = zeros; right_x = zeros; right_y = zeros }

abbrev opened : WiiUPro
opened = record {
  pause_held = true;
  player_index = 255;
  need_set_report = true;
  calibrations = garbage;
  calibration_initialized = false;
}

-- The sticks at rest, and no button down.
abbrev report : List ℕ
report = 0 ∷ 0x34 ∷ 0 ∷ 0 ∷ 0 ∷ 8 ∷ 10 ∷ 8 ∷ 0 ∷ 8 ∷ 20 ∷ 8 ∷ 0xFF ∷ 0xFF ∷ 0xFF ∷ replicate 8 0

opened-IsCalibrated : IsCalibrated opened
opened-IsCalibrated e = cc

wii_u_pro_in_range_example :
    (r : Outcome WiiUPro ℤ) × (i : InputState ℤ) × (handle_packet thousandths opened report 23
      ≡ some r)
    × IsCalibrated r.state
    × (states r.effects ≡ (if is_ignored report 23 then [] else i ∷ []))
    × AllInRange thousandths thousandths_laws i
wii_u_pro_in_range_example =
    wii_u_pro_in_range thousandths thousandths_laws opened report 23 opened-IsCalibrated

wii_u_pro_pauses_example :
    (r : Outcome WiiUPro ℤ) × (run (step thousandths) opened ((report, 23) ∷ []) ≡ some r)
    × IsCalibrated r.state
    × (pauses r.effects ≡ presses true (map home_of ((report, 23) ∷ [])))
wii_u_pro_pauses_example =
    wii_u_pro_pauses thousandths opened ((report, 23) ∷ []) opened-IsCalibrated
