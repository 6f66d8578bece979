-- ===== src/Witnesses/Axes.antt =====
-- Values of axes, over numbers in thousandths.
use mfi_wrapper.Prelude.{arith}
use mfi_wrapper.Prelude.Int.{pos}
use mfi_wrapper.HidPad.Float.{FloatLaws}
use mfi_wrapper.HidPad.Axis.{axis_value}
use mfi_wrapper.HidPad.Axis.Laws.{axis_value_mono}
use mfi_wrapper.HidPad.Effect.{stick_calibration}
use mfi_wrapper.Witnesses.Fixed.{thousandths, thousandths_laws}

axis_value_mono_example :
    FloatLaws.Le thousandths_laws
      (axis_value thousandths (pos 60) stick_calibration)
      (axis_value thousandths (pos 200) stick_calibration)
axis_value_mono_example =
    axis_value_mono thousandths thousandths_laws (pos 60) (pos 200) stick_calibration (omega arith)
      (omega arith)
