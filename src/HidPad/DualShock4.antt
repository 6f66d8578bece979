-- ===== src/HidPad/DualShock4.antt =====
-- src/backend/hidpad/HIDPad_DualShock4.cpp.
pub mod Laws
use mfi_wrapper.Prelude.{
  ℕ, ◌+◌, ◌%◌, ◌^◌, Bool, true, false, List, [], ◌∷◌, ◌++◌, Option, none, some, set, replicate,
  has_bits, ltb, ◌==◌, ◌!=◌, if◌then◌else◌, ◌||◌, ◌>>=◌, bit_or,
}
use mfi_wrapper.Prelude.Int.{ℤ, pos, wrap}
use mfi_wrapper.Protocol.{
  InputState, all_elements, Button, left_thumbstick, right_thumbstick, button_bit,
}
use mfi_wrapper.Backend.Defs.{Description}
use mfi_wrapper.Text.{codes}
use mfi_wrapper.HidPad.Float.{FloatOps}
use mfi_wrapper.HidPad.Axis.{calculate_axis}
use mfi_wrapper.HidPad.Effect.{
  Effect, set_report, get_report, finalize_connection, send_controller_state, Outcome, byte,
  stick_calibration, pressed, pause_effects,
}

pub record DualShock4 : Type 0 where
  pub pause_held : Bool
  -- A `uint8_t`; the constructor's -1 is 255.
  pub player_index : ℕ
  pub need_set_report : Bool

-- The bytes of `static uint8_t report_buffer[79]` before its first use. It is one buffer for all
-- controllers, so methods that use it take it and return it.
abbrev pub initial_report_buffer : List ℕ
initial_report_buffer = 0x52 ∷ 0x11 ∷ 0xB0 ∷ 0x00 ∷ 0x0F ∷ replicate 74 0

unfoldable pub set_player_index : DualShock4 → ℤ → DualShock4
set_player_index s i = record s { player_index = wrap 256 i; need_set_report = true }

abbrev pub present_controls : ℕ
present_controls = all_elements

abbrev pub analog_controls : ℕ
analog_controls = bit_or (button_bit left_thumbstick) (button_bit right_thumbstick)

-- The red, green and blue of each player's light bar.
abbrev pub rgb : ℕ → ℕ × ℕ × ℕ
rgb i =
    if i == 0
    then (0xFF, 0, 0)
    else if i == 1
    then (0, 0xFF, 0)
    else if i == 2
    then (0, 0, 0xFF)
    else (0xFF, 0xFF, 0xFF)

-- SetReport's writes to the shared buffer.
unfoldable pub fill_report : DualShock4 → List ℕ → List ℕ
fill_report s buffer =
    let (r, g, b) = rgb s.player_index in
    if ltb s.player_index 4 then set (set (set buffer 9 r) 10 g) 11 b else buffer

-- `aSize == 79 && aData[2] == 0xC0 && !aData[3]`.
unfoldable pub is_ignored : List ℕ → ℕ → Bool
is_ignored d size = size != 79 || (byte d 2 != 0xC0 || byte d 3 != 0)

pub record Result (Float : Type 0) : Type 0 where
  pub report_buffer : List ℕ
  pub outcome : Outcome DualShock4 Float

-- What AttachController asks for: GetVendorName and the controls.
abbrev pub description : Description
description = record {
  vendor_name = codes "DualShock 4";
  present_controls = present_controls;
  analog_controls = analog_controls;
}

module _ (F : FloatOps) where
  open F use {Float, of_int, neg, sub}

  unfoldable pub open_pad : Outcome DualShock4 Float
  open_pad = record {
    state = record { pause_held = true; player_index = 255; need_set_report = true };
    effects = get_report true 0x2 0x25 ∷ finalize_connection ∷ [];
  }

  -- One row of `dpadStates`.
  unfoldable pub dpad_state : ℕ → Float × Float
  dpad_state i =
      let zero_f = of_int (pos 0) in
      let one_f = of_int (pos 1) in
      let minus_f = neg (of_int (pos 1)) in
      if i == 0
      then (zero_f, minus_f)
      else if i == 1
      then (one_f, minus_f)
      else if i == 2
      then (one_f, zero_f)
      else if i == 3
      then (one_f, one_f)
      else if i == 4
      then (zero_f, one_f)
      else if i == 5
      then (minus_f, one_f)
      else if i == 6
      then (minus_f, zero_f)
      else if i == 7
      then (minus_f, minus_f)
      else (zero_f, zero_f)

  -- The structure `Report` overlays the packet from byte 4: two sticks, three bytes of buttons.
  unfoldable pub input_of : ℕ → ℕ → Float → Float → Float → Float → InputState Float
  unfolding dpad_state
  input_of b₀ b₁ left_x left_y right_x right_y =
      let (dpad_x, dpad_y) = dpad_state (b₀ % 2 ^ 4) in
      record {
        dpad_x = dpad_x;
        dpad_y = dpad_y;
        a = pressed F (has_bits b₀ 0x20);
        b = pressed F (has_bits b₀ 0x40);
        x = pressed F (has_bits b₀ 0x10);
        y = pressed F (has_bits b₀ 0x80);
        left_shoulder = pressed F (has_bits b₁ 0x01);
        right_shoulder = pressed F (has_bits b₁ 0x02);
        left_stick_x = left_x;
        left_stick_y = sub (of_int (pos 0)) left_y;
        right_stick_x = right_x;
        right_stick_y = sub (of_int (pos 0)) right_y;
        left_trigger = pressed F (has_bits b₁ 0x04);
        right_trigger = pressed F (has_bits b₁ 0x08);
        select = pressed F (has_bits b₁ 0x10);
        start = pressed F (has_bits b₁ 0x20);
        left_stick_button = pressed F (has_bits b₁ 0x40);
        right_stick_button = pressed F (has_bits b₁ 0x80);
      }

  unfoldable pub read_input : List ℕ → Option (InputState Float)
  read_input d = do
    left_x ← calculate_axis F (pos (byte d 4)) stick_calibration
    left_y ← calculate_axis F (pos (byte d 5)) stick_calibration
    right_x ← calculate_axis F (pos (byte d 6)) stick_calibration
    right_y ← calculate_axis F (pos (byte d 7)) stick_calibration
    some (input_of (byte d 8) (byte d 9) left_x left_y right_x right_y)

  -- The packet's part behind the LED report; `none` is a failed assertion.
  unfoldable pub handle_input : DualShock4 → List ℕ → ℕ → Option (Outcome DualShock4 Float)
  handle_input s d size =
      let down = has_bits (byte d 10) 0x01 in
      if is_ignored d size then some (record { state = s; effects = [] }) else do
        input ← read_input d
        some (record {
          state = record s { pause_held = down };
          effects = pause_effects s.pause_held down ++ send_controller_state input ∷ [];
        })

  unfoldable pub handle_packet : List ℕ → DualShock4 → List ℕ → ℕ → Option (Result Float)
  handle_packet buffer s d size = do
    let buffer' = if s.need_set_report then fill_report s buffer else buffer
    let led = if s.need_set_report then set_report false 0x11 buffer' ∷ [] else []
    r ← handle_input (record s { need_set_report = false }) d size
    some (record { report_buffer = buffer'; outcome = record r { effects = led ++ r.effects } })
