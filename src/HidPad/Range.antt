-- ===== src/HidPad/Range.antt =====
-- Every number of the inputs that controllers send lies between -1 and 1.
use mfi_wrapper.Prelude.{ℕ, ◌<◌, ◌≡◌, Bool, true, false, some, arith, if◌then◌else◌, List}
use mfi_wrapper.Prelude.Int.{ℤ, pos}
use mfi_wrapper.Protocol.{InputState}
use mfi_wrapper.HidPad.Float.{FloatOps, FloatLaws}
use mfi_wrapper.HidPad.Axis.{Calibration, axis_value, calculate_axis}
use mfi_wrapper.HidPad.Axis.Laws.{
  IsOrdered, is_ordered-true, InRange, le_same, minus_one-le, minus_one-refl, zero-le-one,
  ratio_bounds,
}
use mfi_wrapper.HidPad.Effect.{byte, pressed}

-- The bytes of a report are bytes.
abbrev pub IsBytes : List ℕ → Type 0
IsBytes d = (i : ℕ) → byte d i < 256

pub calculate_axis-IsOrdered :
    (F : FloatOps) (v : ℤ) (c : Calibration)
    → IsOrdered c
    → calculate_axis F v c ≡ some (axis_value F v c)
unfolding calculate_axis
calculate_axis-IsOrdered F v c h = rw (is_ordered-true c h)

module _ (F : FloatOps) (L : FloatLaws F) where
  open F use {Float, of_int, neg, div}
  open L use {Le, le_trans}

  abbrev Ok : Float → Type 0
  Ok x = InRange F L x

  pub record AllInRange (s : InputState Float) : Type 0 where
    pub dpad_x : Ok s.dpad_x
    pub dpad_y : Ok s.dpad_y
    pub a : Ok s.a
    pub b : Ok s.b
    pub x : Ok s.x
    pub y : Ok s.y
    pub left_shoulder : Ok s.left_shoulder
    pub right_shoulder : Ok s.right_shoulder
    pub left_stick_x : Ok s.left_stick_x
    pub left_stick_y : Ok s.left_stick_y
    pub right_stick_x : Ok s.right_stick_x
    pub right_stick_y : Ok s.right_stick_y
    pub left_trigger : Ok s.left_trigger
    pub right_trigger : Ok s.right_trigger
    pub select : Ok s.select
    pub start : Ok s.start
    pub left_stick_button : Ok s.left_stick_button
    pub right_stick_button : Ok s.right_stick_button

  pub zero-InRange : Ok (of_int (pos 0))
  zero-InRange = (minus_one-le F L, zero-le-one F L)

  pub one-InRange : Ok (of_int (pos 1))
  one-InRange = (le_trans (minus_one-le F L) (zero-le-one F L), le_same F L (pos 1))

  pub minus-InRange : Ok (neg (of_int (pos 1)))
  minus-InRange = (minus_one-refl F L, le_trans (minus_one-le F L) (zero-le-one F L))

  pub if-InRange : (t : Bool) {x y : Float} → Ok x → Ok y → Ok (if t then x else y)
  if-InRange true h k = h
  if-InRange false h k = k

  pub pressed-InRange : (t : Bool) → Ok (pressed F t)
  pressed-InRange t = if-InRange t one-InRange zero-InRange

  -- -x, for x between 0 and 1.
  pub neg-InRange : (x : Float) → Le (of_int (pos 0)) x → Le x (of_int (pos 1)) → Ok (neg x)
  neg-InRange x low high = (
    L.neg_anti x (of_int (pos 1)) high,
    le_trans (L.neg_anti (of_int (pos 0)) x low) (le_trans L.neg_zero-le (zero-le-one F L)),
  )

  pub neg_pressed-InRange : (t : Bool) → Ok (neg (pressed F t))
  neg_pressed-InRange true = minus-InRange
  neg_pressed-InRange false = neg-InRange (of_int (pos 0)) (le_same F L (pos 0)) (zero-le-one F L)

  pub pressure_bounds :
      (n : ℕ)
      → n < 256
      → let x = div (of_int (pos n)) (of_int (pos 255)) in
        Le (of_int (pos 0)) x × Le x (of_int (pos 1))
  pressure_bounds n h = ratio_bounds F L (pos n) (pos 255) (omega arith) (omega arith) (omega arith)

  -- Two values at once.
  abbrev pub BothInRange : Float × Float → Type 0
  BothInRange p = Ok p.0 × Ok p.1

  pub if-BothInRange :
      (t : Bool) (p q : Float × Float)
      → BothInRange p
      → BothInRange q
      → BothInRange (if t then p else q)
  if-BothInRange true p q h k = h
  if-BothInRange false p q h k = k
