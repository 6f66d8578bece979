-- ===== src/HidPad/Playstation3.antt =====
-- src/backend/hidpad/HIDPad_Playstation3.cpp and sicksaxis.h: the SixAxis and DualShock 3.
pub mod Laws
use mfi_wrapper.Prelude.{
  ℕ, ◌+◌, ◌^◌, Bool, true, false, List, [], ◌∷◌, ◌++◌, Option, none, some, set, has_bits, bit_and,
  if◌then◌else◌, ◌||◌, ◌>>=◌, ◌-◌,
}
use mfi_wrapper.Prelude.Int.{ℤ, pos, pos_part, ltb_ℤ, leb_ℤ}
use mfi_wrapper.Protocol.{InputState, all_elements}
use mfi_wrapper.Backend.Defs.{Description}
use mfi_wrapper.Text.{codes}
use mfi_wrapper.HidPad.Float.{FloatOps}
use mfi_wrapper.HidPad.Axis.{calculate_axis}
use mfi_wrapper.HidPad.Effect.{
  Effect, set_report, finalize_connection, send_controller_state, Outcome, byte, stick_calibration,
  pressed, pause_effects,
}

-- SS_BUTTONS, in the little-endian order of its bit fields.
pub record Buttons : Type 0 where
  pub select : Bool
  pub l3 : Bool
  pub r3 : Bool
  pub start : Bool
  pub up : Bool
  pub right : Bool
  pub down : Bool
  pub left : Bool
  pub l2 : Bool
  pub r2 : Bool
  pub l1 : Bool
  pub r1 : Bool
  pub triangle : Bool
  pub circle : Bool
  pub cross : Bool
  pub square : Bool
  pub ps : Bool

unfoldable pub buttons_of : ℕ → ℕ → ℕ → Buttons
buttons_of b₀ b₁ b₂ = record {
  select = has_bits b₀ 0x01;
  l3 = has_bits b₀ 0x02;
  r3 = has_bits b₀ 0x04;
  start = has_bits b₀ 0x08;
  up = has_bits b₀ 0x10;
  right = has_bits b₀ 0x20;
  down = has_bits b₀ 0x40;
  left = has_bits b₀ 0x80;
  l2 = has_bits b₁ 0x01;
  r2 = has_bits b₁ 0x02;
  l1 = has_bits b₁ 0x04;
  r1 = has_bits b₁ 0x08;
  triangle = has_bits b₁ 0x10;
  circle = has_bits b₁ 0x20;
  cross = has_bits b₁ 0x40;
  square = has_bits b₁ 0x80;
  ps = has_bits b₂ 0x01;
}

-- SS_ANALOG, SS_DPAD_SENSITIVE, SS_SHOULDER_SENSITIVE and SS_BUTTON_SENSITIVE.
pub record Analog : Type 0 where
  pub x : ℕ
  pub y : ℕ

pub record DpadSensitive : Type 0 where
  pub up : ℕ
  pub right : ℕ
  pub down : ℕ
  pub left : ℕ

pub record ShoulderSensitive : Type 0 where
  pub l2 : ℕ
  pub r2 : ℕ
  pub l1 : ℕ
  pub r1 : ℕ

pub record ButtonSensitive : Type 0 where
  pub triangle : ℕ
  pub circle : ℕ
  pub cross : ℕ
  pub square : ℕ

-- SS_GAMEPAD: the packed structure that overlays the report, without the fields that nothing reads.
pub record Gamepad : Type 0 where
  pub buttons : Buttons
  pub left_analog : Analog
  pub right_analog : Analog
  pub dpad_sens : DpadSensitive
  pub shoulder_sens : ShoulderSensitive
  pub button_sens : ButtonSensitive

-- The overlay from byte 1 of the report.
unfoldable pub gamepad_of : List ℕ → Gamepad
gamepad_of d = record {
  buttons = buttons_of (byte d 3) (byte d 4) (byte d 5);
  left_analog = record { x = byte d 7; y = byte d 8 };
  right_analog = record { x = byte d 9; y = byte d 10 };
  dpad_sens = record { up = byte d 15; right = byte d 16; down = byte d 17; left = byte d 18 };
  shoulder_sens = record { l2 = byte d 19; r2 = byte d 20; l1 = byte d 21; r1 = byte d 22 };
  button_sens = record {
    triangle = byte d 23;
    circle = byte d 24;
    cross = byte d 25;
    square = byte d 26;
  };
}

pub record Playstation3 : Type 0 where
  pub pause_held : Bool
  pub led_byte : ℕ
  pub need_set_report : Bool

-- The magic packet to start reports, and the report that sets the LEDs.
abbrev pub start_reports : List ℕ
start_reports = 0x53 ∷ 0xF4 ∷ 0x42 ∷ 0x03 ∷ 0x00 ∷ 0x00 ∷ []

abbrev pub report_buffer : List ℕ
report_buffer =
    0x52 ∷ 0x01 ∷ 0x00 ∷ 0xFF ∷ 0x00 ∷ 0xFF ∷ 0x00 ∷ 0x00 ∷ 0x00 ∷ 0x00 ∷ 0x00 ∷ 0x00 ∷ 0xff ∷ 0x27
    ∷ 0x10 ∷ 0x00 ∷ 0x32 ∷ 0xff ∷ 0x27 ∷ 0x10 ∷ 0x00 ∷ 0x32 ∷ 0xff ∷ 0x27 ∷ 0x10 ∷ 0x00 ∷ 0x32
    ∷ 0xff ∷ 0x27 ∷ 0x10 ∷ 0x00 ∷ 0x32 ∷ 0x00 ∷ 0x00 ∷ 0x00 ∷ 0x00 ∷ 0x00 ∷ 0x00 ∷ 0x00 ∷ 0x00
    ∷ 0x00 ∷ 0x00 ∷ 0x00 ∷ 0x00 ∷ 0x00 ∷ 0x00 ∷ 0x00 ∷ 0x00 ∷ 0x00 ∷ 0x00 ∷ []

unfoldable pub set_player_index : Playstation3 → ℤ → Playstation3
set_player_index s i = record s {
  led_byte = if ltb_ℤ i (pos 0) || leb_ℤ (pos 4) i then 0 else 2 ^ (pos_part i + 1);
  need_set_report = true;
}

-- GetPresentControls and GetAnalogControls.
abbrev pub present_controls : ℕ
present_controls = all_elements

-- `MFi_AllElements & ~MFi_FullElements`, the complement within 32 bits.
abbrev pub analog_controls : ℕ
analog_controls = bit_and all_elements (2 ^ 32 - 1 - 0x7800)

-- What AttachController asks for: GetVendorName and the controls.
abbrev pub description : Description
description = record {
  vendor_name = codes "SixAxis/DualShock 3";
  present_controls = present_controls;
  analog_controls = analog_controls;
}

module _ (F : FloatOps) where
  open F use {Float, of_int, neg, sub, div, is_pos}

  -- The constructor, as built for iOS or not.
  unfoldable pub open_pad : Bool → Outcome Playstation3 Float
  open_pad ios = record {
    state = record { pause_held = true; led_byte = 0; need_set_report = true };
    effects =
        (if ios then set_report true 0 start_reports ∷ [] else []) ++ finalize_connection ∷ [];
  }

  unfoldable pub led_report : Playstation3 → Effect Float
  led_report s = set_report false 0x01 (set report_buffer 11 s.led_byte)

  -- A pressure as a part of its range.
  unfoldable pub pressure : ℕ → Float
  pressure n = div (of_int (pos n)) (of_int (pos 255))

  unfoldable pub input_of : Gamepad → Float → Float → Float → Float → InputState Float
  unfolding pressure
  input_of pad left_x left_y right_x right_y = record {
    dpad_x =
        if is_pos (pressure pad.dpad_sens.left)
        then neg (pressure pad.dpad_sens.left)
        else pressure pad.dpad_sens.right;
    dpad_y =
        if is_pos (pressure pad.dpad_sens.up)
        then neg (pressure pad.dpad_sens.up)
        else pressure pad.dpad_sens.down;
    a = pressure pad.button_sens.cross;
    b = pressure pad.button_sens.circle;
    x = pressure pad.button_sens.square;
    y = pressure pad.button_sens.triangle;
    left_shoulder = pressure pad.shoulder_sens.l1;
    right_shoulder = pressure pad.shoulder_sens.r1;
    left_stick_x = left_x;
    left_stick_y = sub (of_int (pos 0)) left_y;
    right_stick_x = right_x;
    right_stick_y = sub (of_int (pos 0)) right_y;
    left_trigger = pressure pad.shoulder_sens.l2;
    right_trigger = pressure pad.shoulder_sens.r2;
    select = pressed F pad.buttons.select;
    start = pressed F pad.buttons.start;
    left_stick_button = pressed F pad.buttons.l3;
    right_stick_button = pressed F pad.buttons.r3;
  }

  unfoldable pub read_input : Gamepad → Option (InputState Float)
  read_input pad = do
    left_x ← calculate_axis F (pos pad.left_analog.x) stick_calibration
    left_y ← calculate_axis F (pos pad.left_analog.y) stick_calibration
    right_x ← calculate_axis F (pos pad.right_analog.x) stick_calibration
    right_y ← calculate_axis F (pos pad.right_analog.y) stick_calibration
    some (input_of pad left_x left_y right_x right_y)

  -- `none` is a failed assertion.
  unfoldable pub handle_packet : Playstation3 → List ℕ → Option (Outcome Playstation3 Float)
  handle_packet s d = do
    let pad = gamepad_of d
    let led = if s.need_set_report then led_report s ∷ [] else []
    input ← read_input pad
    some (record {
      state = record s { pause_held = pad.buttons.ps; need_set_report = false };
      effects =
          led ++ (pause_effects s.pause_held pad.buttons.ps ++ send_controller_state input ∷ []);
    })
