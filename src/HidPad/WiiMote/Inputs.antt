-- ===== src/HidPad/WiiMote/Inputs.antt =====
-- The numbers of the input state that ProcessButtons of HIDPad_WiiMote.cpp makes.
use mfi_wrapper.Prelude.{ℕ, inl, inr, Bool, Option-cases}
use mfi_wrapper.HidPad.Float.{FloatOps, FloatLaws}
use mfi_wrapper.HidPad.Axis.Laws.{InRange}
use mfi_wrapper.HidPad.Range.{
  AllInRange, zero-InRange, minus-InRange, one-InRange, pressed-InRange, if-InRange,
}
use mfi_wrapper.HidPad.WiiMote.Driver.{ClassicCtrl, Wiimote}
use mfi_wrapper.HidPad.WiiMote.Pad.{remote_input, classic_input, process_buttons, direction}
use mfi_wrapper.HidPad.WiiMote.Range.{IsClassic, IsExpansion}

module _ (F : FloatOps) (L : FloatLaws F) where
  open F use {Float, of_int}

  direction-InRange : (low high : Bool) → InRange F L (direction F low high)
  direction-InRange low high =
      if-InRange F L low (minus-InRange F L)
        (if-InRange F L high (one-InRange F L) (zero-InRange F L))

  remote_input-AllInRange : (btns : ℕ) → AllInRange F L (remote_input F btns)
  unfolding remote_input
  remote_input-AllInRange btns =
      let z = zero-InRange F L in
      record {
        dpad_x = direction-InRange _ _;
        dpad_y = direction-InRange _ _;
        a = pressed-InRange F L _;
        b = pressed-InRange F L _;
        x = pressed-InRange F L _;
        y = pressed-InRange F L _;
        left_shoulder = pressed-InRange F L _;
        right_shoulder = pressed-InRange F L _;
        left_stick_x = z;
        left_stick_y = z;
        right_stick_x = z;
        right_stick_y = z;
        left_trigger = z;
        right_trigger = z;
        select = z;
        start = z;
        left_stick_button = z;
        right_stick_button = z;
      }

  classic_input-AllInRange :
      (cc : ClassicCtrl Float) → IsClassic F L cc → AllInRange F L (classic_input F cc)
  unfolding classic_input
  classic_input-AllInRange cc h =
      let z = zero-InRange F L in
      record {
        dpad_x = direction-InRange _ _;
        dpad_y = direction-InRange _ _;
        a = pressed-InRange F L _;
        b = pressed-InRange F L _;
        x = pressed-InRange F L _;
        y = pressed-InRange F L _;
        left_shoulder = pressed-InRange F L _;
        right_shoulder = pressed-InRange F L _;
        left_stick_x = h.left_x.in_range;
        left_stick_y = h.left_y.in_range;
        right_stick_x = h.right_x.in_range;
        right_stick_y = h.right_y.in_range;
        left_trigger = pressed-InRange F L _;
        right_trigger = pressed-InRange F L _;
        select = pressed-InRange F L _;
        start = pressed-InRange F L _;
        left_stick_button = z;
        right_stick_button = z;
      }

  pub process_buttons-AllInRange :
      (wm : Wiimote Float) → IsExpansion F L wm.exp → AllInRange F L (process_buttons F wm)
  unfolding process_buttons
  process_buttons-AllInRange wm h = elim (Option-cases wm.exp) [
    | inl e ↦ rw (process_buttons, e) (remote_input-AllInRange wm.btns)
    | inr (cc, e) ↦ rw (process_buttons, e) (classic_input-AllInRange cc (rw e at h))
  ]
