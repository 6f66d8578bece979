-- ===== src/Frontend/Gamepad.antt =====
-- GCGamepad and GCExtendedGamepad of src/frontend/MFiWrapper.mm: their properties are pointers to elements of
-- the controller, here the places of these elements.
pub mod Laws
use mfi_wrapper.Prelude.{ℕ, zero, suc, List, [], ◌∷◌}
use mfi_wrapper.Protocol.{
  Button, dpad, a_button, b_button, x_button, y_button, left_shoulder, right_shoulder,
  left_thumbstick, right_thumbstick, left_trigger, right_trigger, select, start, left_stick_button,
  right_stick_button, index,
}
use mfi_wrapper.Frontend.Element.{Element, button}
use mfi_wrapper.Frontend.Element

pub record Gamepad : Type 0 where
  pub dpad_place : ℕ
  pub button_a : ℕ
  pub button_b : ℕ
  pub button_x : ℕ
  pub button_y : ℕ
  pub left_shoulder_place : ℕ
  pub right_shoulder_place : ℕ

-- GCExtendedGamepad, with a GCGamepad's properties.
pub record ExtendedGamepad : Type 0 where
  pub common : Gamepad
  pub left_thumbstick_place : ℕ
  pub right_thumbstick_place : ℕ
  pub left_trigger_place : ℕ
  pub right_trigger_place : ℕ
  pub select_place : ℕ
  pub start_place : ℕ
  pub left_stick_place : ℕ
  pub right_stick_place : ℕ

-- gamepadForController: of the two classes.
unfoldable pub gamepad_for_controller : Gamepad
gamepad_for_controller = record {
  dpad_place = index dpad;
  button_a = index a_button;
  button_b = index b_button;
  button_x = index x_button;
  button_y = index y_button;
  left_shoulder_place = index left_shoulder;
  right_shoulder_place = index right_shoulder;
}

unfoldable pub extended_gamepad_for_controller : ExtendedGamepad
unfolding gamepad_for_controller
extended_gamepad_for_controller = record {
  common = gamepad_for_controller;
  left_thumbstick_place = index left_thumbstick;
  right_thumbstick_place = index right_thumbstick;
  left_trigger_place = index left_trigger;
  right_trigger_place = index right_trigger;
  select_place = index select;
  start_place = index start;
  left_stick_place = index left_stick_button;
  right_stick_place = index right_stick_button;
}

-- The property for a control.
abbrev pub property : ExtendedGamepad → Button → ℕ
property g dpad = g.common.dpad_place
property g a_button = g.common.button_a
property g b_button = g.common.button_b
property g x_button = g.common.button_x
property g y_button = g.common.button_y
property g left_shoulder = g.common.left_shoulder_place
property g right_shoulder = g.common.right_shoulder_place
property g left_thumbstick = g.left_thumbstick_place
property g right_thumbstick = g.right_thumbstick_place
property g left_trigger = g.left_trigger_place
property g right_trigger = g.right_trigger_place
property g select = g.select_place
property g start = g.start_place
property g left_stick_button = g.left_stick_place
property g right_stick_button = g.right_stick_place

-- What the application reads at a place: the value of a button, or those of a pad's two axes.
abbrev pub shown_at : List Element → ℕ → List ℕ
shown_at [] i = []
shown_at (button b ∷ es) zero = b.value ∷ []
shown_at (Element.dpad p ∷ es) zero = p.x_axis.value ∷ p.y_axis.value ∷ []
shown_at (e ∷ es) (suc i) = shown_at es i
