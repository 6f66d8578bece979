-- ===== src/HidPad/Axis.antt =====
-- `Interface::CalculateAxis` of src/backend/hidpad/HIDPad.cpp.
pub mod Laws
use mfi_wrapper.Prelude.{ℕ, Bool, ◌&&◌, Option, none, some, if◌then◌else◌}
use mfi_wrapper.Prelude.Int.{ℤ, pos, ◌-ℤ◌, ltb_ℤ, leb_ℤ}
use mfi_wrapper.HidPad.Float.{FloatOps}

-- `int32_t aCalibration[4]`: the range of the axis from `c0` to `c3`, and its dead zone from `c1` to
-- `c2`, all inclusive.
pub record Calibration : Type 0 where
  pub c0 : ℤ
  pub c1 : ℤ
  pub c2 : ℤ
  pub c3 : ℤ

-- The three assertions.
unfoldable pub is_ordered : Calibration → Bool
is_ordered c = ltb_ℤ c.c0 c.c1 && (leb_ℤ c.c1 c.c2 && ltb_ℤ c.c2 c.c3)

module _ (F : FloatOps) where
  open F use {Float, of_int, neg, sub, div}

  -- `CalculateAxis` behind its assertions.
  unfoldable pub axis_value : ℤ → Calibration → Float
  axis_value v c =
      if ltb_ℤ v c.c0
      then neg (of_int (pos 1))
      else if ltb_ℤ c.c3 v
      then of_int (pos 1)
      else if leb_ℤ c.c1 v && leb_ℤ v c.c2
      then of_int (pos 0)
      else if ltb_ℤ v c.c1
      then sub (of_int (pos 0))
          (sub (of_int (pos 1)) (div (of_int (v -ℤ c.c0)) (of_int (c.c1 -ℤ c.c0))))
      else div (of_int (v -ℤ c.c2)) (of_int (c.c3 -ℤ c.c2))

  -- `none` is a failed assertion, which stops the process.
  unfoldable pub calculate_axis : ℤ → Calibration → Option Float
  calculate_axis v c = if is_ordered c then some (axis_value v c) else none
