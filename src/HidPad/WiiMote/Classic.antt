-- ===== src/HidPad/WiiMote/Classic.antt =====
-- The reports of the Classic Controller, from src/backend/hidpad/wiimote.cpp.
use mfi_wrapper.Prelude.{
  ℕ, ◌+◌, ◌*◌, ◌/◌, ◌%◌, ◌^◌, Bool, true, List, Option, none, some, bit_and, bit_xor, if◌then◌else◌,
  ◌>>=◌,
}
use mfi_wrapper.Prelude.Int.{ℤ, pos, ◌+ℤ◌, ◌-ℤ◌, min_ℤ, max_ℤ}
use mfi_wrapper.HidPad.Float.{FloatOps}
use mfi_wrapper.HidPad.Axis.{Calibration, calculate_axis}
use mfi_wrapper.HidPad.Effect.{byte}
use mfi_wrapper.HidPad.WiiMote.Constants.{classic_all}
use mfi_wrapper.HidPad.WiiMote.Driver.{Axis, ClassicCtrl, Wiimote, short_at}

-- The calibration around the first value of an axis.
unfoldable pub first_calibration : ℤ → Calibration
first_calibration raw = record {
  c0 = raw -ℤ pos 3;
  c1 = raw -ℤ pos 2;
  c2 = raw +ℤ pos 2;
  c3 = raw +ℤ pos 3;
}

-- The calibration that `process_axis` leaves.
unfoldable pub learn : Bool → Calibration → ℤ → Calibration
learn initialized c raw =
    let c' = if initialized then c else first_calibration raw in
    record c' { c0 = min_ℤ c'.c0 raw; c3 = max_ℤ c'.c3 raw }

-- The values of the three bytes of the joysticks. Their parts do not overlap, so `|` is `+`.
abbrev pub raw_left_x : List ℕ → ℤ
raw_left_x msg = pos (byte msg 0 % 2 ^ 6)

abbrev pub raw_left_y : List ℕ → ℤ
raw_left_y msg = pos (byte msg 1 % 2 ^ 6)

abbrev pub raw_right_x : List ℕ → ℤ
raw_right_x msg = pos (
    2 ^ 3 * (byte msg 0 / 2 ^ 6 % 2 ^ 2)
    + 2 * (byte msg 1 / 2 ^ 6 % 2 ^ 2)
    + byte msg 2 / 2 ^ 7 % 2)

abbrev pub raw_right_y : List ℕ → ℤ
raw_right_y msg = pos (byte msg 2 % 2 ^ 5)

module _ (F : FloatOps) where
  open F use {Float}

  -- `none` is a failed assertion of CalculateAxis.
  unfoldable pub process_axis : Axis Float → ℤ → Option (Axis Float)
  process_axis axis raw = do
    let c = learn axis.initialized axis.calibration raw
    value ← calculate_axis F raw c
    some (record { initialized = true; calibration = c; value = value })

  unfoldable pub classic_ctrl_event : ClassicCtrl Float → List ℕ → Option (ClassicCtrl Float)
  classic_ctrl_event cc msg = do
    left_x ← process_axis cc.left_x (raw_left_x msg)
    left_y ← process_axis cc.left_y (raw_left_y msg)
    right_x ← process_axis cc.right_x (raw_right_x msg)
    right_y ← process_axis cc.right_y (raw_right_y msg)
    some (record {
      btns = bit_and (bit_xor (short_at msg 4) 0xFFFF) classic_all;
      left_x = left_x;
      left_y = left_y;
      right_x = right_x;
      right_y = right_y;
    })

  unfoldable pub wiimote_handle_expansion : Wiimote Float → List ℕ → Option (Wiimote Float)
  wiimote_handle_expansion wm msg = elim wm.exp [
    | none ↦ some wm
    | some cc ↦ (do cc' ← classic_ctrl_event cc msg; some (record wm { exp = some cc' }))
  ]
