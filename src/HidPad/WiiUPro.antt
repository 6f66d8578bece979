-- ===== src/HidPad/WiiUPro.antt =====
-- src/backend/hidpad/HIDPad_WiiUPro.cpp.
pub mod Laws
use mfi_wrapper.Prelude.{
  ℕ, ◌+◌, ◌*◌, ◌^◌, Bool, true, false, List, [], ◌∷◌, ◌++◌, Option, none, some, set, has_bits, ltb,
  ◌!=◌, if◌then◌else◌, ◌||◌, ◌>>=◌, bit_or, bit_xor,
}
use mfi_wrapper.Prelude.Int.{ℤ, pos, ◌+ℤ◌, ◌-ℤ◌, min_ℤ, max_ℤ, wrap}
use mfi_wrapper.Protocol.{
  InputState, all_elements, Button, left_thumbstick, right_thumbstick, button_bit,
}
use mfi_wrapper.Backend.Defs.{Description}
use mfi_wrapper.Text.{codes}
use mfi_wrapper.HidPad.Float.{FloatOps}
use mfi_wrapper.HidPad.Axis.{Calibration, calculate_axis}
use mfi_wrapper.HidPad.Effect.{
  Effect, set_report, finalize_connection, send_controller_state, Outcome, byte, pressed,
  pause_effects,
}

-- `int32_t calibration[4][4]`.
pub record Calibrations : Type 0 where
  pub left_x : Calibration
  pub left_y : Calibration
  pub right_x : Calibration
  pub right_y : Calibration

pub record WiiUPro : Type 0 where
  pub pause_held : Bool
  -- A `uint8_t`; the constructor's -1 is 255.
  pub player_index : ℕ
  pub need_set_report : Bool
  pub calibrations : Calibrations
  pub calibration_initialized : Bool

unfoldable pub set_player_index : WiiUPro → ℤ → WiiUPro
set_player_index s i = record s { player_index = wrap 256 i; need_set_report = true }

abbrev pub present_controls : ℕ
present_controls = all_elements

abbrev pub analog_controls : ℕ
analog_controls = bit_or (button_bit left_thumbstick) (button_bit right_thumbstick)

-- The calibration around the first value of an axis.
unfoldable pub initial_calibration : ℤ → Calibration
initial_calibration v = record {
  c0 = v -ℤ pos 0x100;
  c1 = v -ℤ pos 0x80;
  c2 = v +ℤ pos 0x80;
  c3 = v +ℤ pos 0x100;
}

-- A value outside the range widens it.
unfoldable pub widen : ℤ → Calibration → Calibration
widen v c = record c { c0 = min_ℤ v c.c0; c3 = max_ℤ v c.c3 }

-- The calibration that a round of the loop over the axes leaves.
unfoldable pub recalibrate : Bool → ℤ → Calibration → Calibration
recalibrate initialized v c = if initialized then widen v c else widen v (initial_calibration v)

-- FETCH_16: the bytes of a value do not overlap, so `|` is `+`.
unfoldable pub fetch16 : List ℕ → ℕ → ℤ
fetch16 d i = pos (byte d i + 2 ^ 8 * byte d (i + 1))

-- The calibrations after the loop over the axes.
unfoldable pub recalibrate_all : Bool → List ℕ → Calibrations → Calibrations
recalibrate_all initialized d c = record {
  left_x = recalibrate initialized (fetch16 d 4) c.left_x;
  left_y = recalibrate initialized (fetch16 d 8) c.left_y;
  right_x = recalibrate initialized (fetch16 d 6) c.right_x;
  right_y = recalibrate initialized (fetch16 d 10) c.right_y;
}

-- `aSize != 23 || aData[1] != 0x34`.
unfoldable pub is_ignored : List ℕ → ℕ → Bool
is_ignored d size = size != 23 || byte d 1 != 0x34

-- What AttachController asks for: GetVendorName and the controls.
abbrev pub description : Description
description = record {
  vendor_name = codes "Wii U Pro Controller";
  present_controls = present_controls;
  analog_controls = analog_controls;
}

-- HandlePacket inverts the three bytes of buttons where they stand, in the buffer that it was given.
unfoldable pub buffer_after : List ℕ → ℕ → List ℕ
buffer_after d size =
    if is_ignored d size
    then d
    else set (set (set d 12 (bit_xor (byte d 12) 0xFF)) 13 (bit_xor (byte d 13) 0xFF)) 14
        (bit_xor (byte d 14) 0xFF)

module _ (F : FloatOps) where
  open F use {Float, of_int, neg}

  unfoldable pub open_pad : Calibrations → Outcome WiiUPro Float
  open_pad garbage = record {
    state = record {
      pause_held = true;
      player_index = 255;
      need_set_report = true;
      calibrations = garbage;
      calibration_initialized = false;
    };
    effects = finalize_connection ∷ set_report false 0x12 (0xA2 ∷ 0x15 ∷ 0x00 ∷ 0x00 ∷ []) ∷ [];
  }

  -- SetReport: the kind of report, then the player's LED.
  unfoldable pub report_effects : WiiUPro → List (Effect Float)
  report_effects s =
      set_report false 0x12 (0xA2 ∷ 0x12 ∷ 0x00 ∷ 0x34 ∷ [])
      ∷ (if ltb s.player_index 4
          then set_report false 0x11 (0xA2 ∷ 0x11 ∷ 2 ^ (4 + s.player_index) ∷ []) ∷ []
          else [])

  -- The input, from the three bytes of buttons after they are inverted.
  unfoldable pub input_of : ℕ → ℕ → ℕ → Float → Float → Float → Float → InputState Float
  input_of bc bd be left_x left_y right_x right_y = record {
    dpad_x =
        if has_bits bd 0x02
        then neg (pressed F (has_bits bd 0x02))
        else pressed F (has_bits bc 0x80);
    dpad_y =
        if has_bits bd 0x01
        then neg (pressed F (has_bits bd 0x01))
        else pressed F (has_bits bc 0x40);
    a = pressed F (has_bits bd 0x40);
    b = pressed F (has_bits bd 0x10);
    x = pressed F (has_bits bd 0x20);
    y = pressed F (has_bits bd 0x08);
    left_shoulder = pressed F (has_bits bc 0x20);
    right_shoulder = pressed F (has_bits bc 0x02);
    left_stick_x = left_x;
    left_stick_y = left_y;
    right_stick_x = right_x;
    right_stick_y = right_y;
    left_trigger = pressed F (has_bits bd 0x80);
    right_trigger = pressed F (has_bits bd 0x04);
    select = pressed F (has_bits bc 0x10);
    start = pressed F (has_bits bc 0x04);
    left_stick_button = pressed F (has_bits be 0x02);
    right_stick_button = pressed F (has_bits be 0x01);
  }

  unfoldable pub read_input : Calibrations → List ℕ → Option (InputState Float)
  read_input c d = do
    left_x ← calculate_axis F (fetch16 d 4) c.left_x
    left_y ← calculate_axis F (fetch16 d 8) c.left_y
    right_x ← calculate_axis F (fetch16 d 6) c.right_x
    right_y ← calculate_axis F (fetch16 d 10) c.right_y
    some (
        input_of (bit_xor (byte d 12) 0xFF) (bit_xor (byte d 13) 0xFF) (bit_xor (byte d 14) 0xFF)
          left_x left_y right_x right_y)

  -- The packet's part behind the reports; `none` is a failed assertion.
  unfoldable pub handle_input : WiiUPro → List ℕ → ℕ → Option (Outcome WiiUPro Float)
  handle_input s d size =
      let down = has_bits (bit_xor (byte d 12) 0xFF) 0x08 in
      let c = recalibrate_all s.calibration_initialized d s.calibrations in
      if is_ignored d size then some (record { state = s; effects = [] }) else do
        input ← read_input c d
        some (record {
          state = record s { calibrations = c; calibration_initialized = true; pause_held = down };
          effects = pause_effects s.pause_held down ++ send_controller_state input ∷ [];
        })

  unfoldable pub handle_packet : WiiUPro → List ℕ → ℕ → Option (Outcome WiiUPro Float)
  handle_packet s d size = do
    let reports = if s.need_set_report then report_effects s else []
    r ← handle_input (record s { need_set_report = false }) d size
    some (record r { effects = reports ++ r.effects })
