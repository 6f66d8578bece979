-- ===== src/Frontend/Controller.antt =====
-- GCController of src/frontend/MFiWrapper.mm, with its list of elements.
pub mod Laws
use mfi_wrapper.Prelude.{ℕ, zero, suc, Bool, has_bits, List, [], ◌∷◌, Option, none, some}
use mfi_wrapper.Prelude.Int.{ℤ, negsuc}
use mfi_wrapper.Text.{c_string}
use mfi_wrapper.Protocol.{
  Button, a_button, b_button, x_button, y_button, left_shoulder, right_shoulder, left_thumbstick,
  right_thumbstick, left_trigger, right_trigger, select, start, left_stick_button,
  right_stick_button, index, button_bit, extended_elements, ConnectPacket, InputState,
}
use mfi_wrapper.Protocol.Wire.{state_words}
use mfi_wrapper.Protocol
use mfi_wrapper.Frontend.Element.{
  Call, Element, button, dpad, button_with, dpad_with, update_elements,
}

pub record Controller : Type 0 where
  pub tweak_handle : ℕ
  pub vendor_name : List ℕ
  pub player_index : ℤ
  pub controller_paused_handler : Option ℕ
  pub tweak_elements : List Element
  -- Whether there is a GCExtendedGamepad.
  pub extended_gamepad : Bool

-- ANALOG_TEST
unfoldable pub is_analog : ConnectPacket → Button → Bool
is_analog p k = has_bits p.analog_controls (button_bit k)

-- The list of tweakElements.
unfoldable pub new_elements : ConnectPacket → List Element
unfolding is_analog
new_elements p =
    let pad = λ (k : Button). dpad (dpad_with (is_analog p k)) in
    let one_button = λ (k : Button). button (button_with (is_analog p k)) in
    pad Protocol.dpad
    ∷ one_button a_button
    ∷ one_button b_button
    ∷ one_button x_button
    ∷ one_button y_button
    ∷ one_button left_shoulder
    ∷ one_button right_shoulder
    ∷ pad left_thumbstick
    ∷ pad right_thumbstick
    ∷ one_button left_trigger
    ∷ one_button right_trigger
    ∷ one_button select
    ∷ one_button start
    ∷ one_button left_stick_button
    ∷ one_button right_stick_button
    ∷ []

-- GCControllerPlayerIndexUnset
abbrev pub player_index_unset : ℤ
player_index_unset = negsuc 0

-- controllerForHandle:data:. The setter of the player's index also tells the backend
-- (Manager.set_player_index).
unfoldable pub controller_for_handle : ℕ → ConnectPacket → Controller
controller_for_handle handle p = record {
  tweak_handle = handle;
  vendor_name = c_string p.vendor_name;
  player_index = player_index_unset;
  controller_paused_handler = none;
  tweak_elements = new_elements p;
  extended_gamepad = has_bits p.present_controls extended_elements;
}

-- tweakUpdateButtons:
unfoldable pub tweak_update_buttons : Controller → InputState ℕ → Controller × List Call
tweak_update_buttons c s =
    let (es, calls) = update_elements c.tweak_elements (state_words s) in
    (record c { tweak_elements = es }, calls)
