-- ===== src/HidPad/WiiMote/Pad.antt =====
-- The class WiiMote of src/backend/hidpad/HIDPad_WiiMote.cpp.
use mfi_wrapper.Prelude.{
  ℕ, Bool, true, false, List, [], ◌∷◌, ◌++◌, Option, none, some, drop, has_bits, ◌==◌,
  if◌then◌else◌, ◌>>=◌,
}
use mfi_wrapper.Prelude.Int.{ℤ, pos, negsuc}
use mfi_wrapper.Protocol.{InputState}
use mfi_wrapper.Backend.Defs.{Description}
use mfi_wrapper.Text.{codes}
use mfi_wrapper.HidPad.Float.{FloatOps}
use mfi_wrapper.HidPad.Effect.{finalize_connection, send_controller_state, Outcome, byte, pressed}
use mfi_wrapper.HidPad.WiiMote.Constants.{
  rpt_ctrl_status, rpt_read, rpt_btn, rpt_btn_exp, button_up, button_down, button_right,
  button_left, button_one, button_two, button_a, button_b, button_minus, button_plus, classic_left,
  classic_right, classic_up, classic_down, classic_b, classic_a, classic_y, classic_x,
  classic_full_l, classic_full_r, classic_zl, classic_zr, classic_minus, classic_plus,
}
use mfi_wrapper.HidPad.WiiMote.Driver.{
  ClassicCtrl, Wiimote, wiimote_pressed_buttons, set_player_led,
}
use mfi_wrapper.HidPad.WiiMote.Handshake.{wiimote_handshake}
use mfi_wrapper.HidPad.WiiMote.Classic.{wiimote_handle_expansion}

-- SetPlayerIndex, with the LEDs that it sets.
unfoldable pub set_player_index :
    {Float : Type 0} → Wiimote Float → ℤ → Outcome (Wiimote Float) Float
set_player_index wm i =
    let (wm', leds) = set_player_led (record wm { unid = i }) in
    record { state = wm'; effects = leds }

-- The fuel of the handshake.
abbrev pub rounds : ℕ
rounds = 3

-- What AttachController asks for: GetVendorName, and the controls of the base class.
abbrev pub description : Description
description = record {
  vendor_name = codes "Wii Remote";
  present_controls = 0xFFFFFFFF;
  analog_controls = 0;
}

module _ (F : FloatOps) where
  open F use {Float, of_int, neg}

  -- The device before its handshake.
  abbrev pub blank : Wiimote Float
  blank = record {
    unid = negsuc 0;
    is_connected = true;
    is_handshake = false;
    is_handshake_complete = false;
    is_expansion = false;
    leds = 0;
    handshake_state = 0;
    exp = none;
    btns = 0;
  }

  -- The constructor; `none` is a handshake that has not returned.
  unfoldable pub open_pad : Option (Outcome (Wiimote Float) Float)
  open_pad = do
    h ← wiimote_handshake F rounds blank 255 []
    some (record { state = h.state; effects = h.effects ++ finalize_connection ∷ [] })

  -- The first direction if its button is down, then the other.
  abbrev pub direction : Bool → Bool → Float
  direction low high =
      if low then neg (of_int (pos 1)) else if high then of_int (pos 1) else of_int (pos 0)

  -- The state of the Wii Remote alone.
  unfoldable pub remote_input : ℕ → InputState Float
  remote_input btns = record {
    dpad_x = direction (has_bits btns button_up) (has_bits btns button_down);
    dpad_y = direction (has_bits btns button_right) (has_bits btns button_left);
    a = pressed F (has_bits btns button_one);
    b = pressed F (has_bits btns button_two);
    x = pressed F (has_bits btns button_a);
    y = pressed F (has_bits btns button_b);
    left_shoulder = pressed F (has_bits btns button_minus);
    right_shoulder = pressed F (has_bits btns button_plus);
    left_stick_x = of_int (pos 0);
    left_stick_y = of_int (pos 0);
    right_stick_x = of_int (pos 0);
    right_stick_y = of_int (pos 0);
    left_trigger = of_int (pos 0);
    right_trigger = of_int (pos 0);
    select = of_int (pos 0);
    start = of_int (pos 0);
    left_stick_button = of_int (pos 0);
    right_stick_button = of_int (pos 0);
  }

  -- The state of a Classic Controller.
  unfoldable pub classic_input : ClassicCtrl Float → InputState Float
  classic_input cc = record {
    dpad_x = direction (has_bits cc.btns classic_left) (has_bits cc.btns classic_right);
    dpad_y = direction (has_bits cc.btns classic_up) (has_bits cc.btns classic_down);
    a = pressed F (has_bits cc.btns classic_b);
    b = pressed F (has_bits cc.btns classic_a);
    x = pressed F (has_bits cc.btns classic_y);
    y = pressed F (has_bits cc.btns classic_x);
    left_shoulder = pressed F (has_bits cc.btns classic_full_l);
    right_shoulder = pressed F (has_bits cc.btns classic_full_r);
    left_stick_x = cc.left_x.value;
    left_stick_y = cc.left_y.value;
    right_stick_x = cc.right_x.value;
    right_stick_y = cc.right_y.value;
    left_trigger = pressed F (has_bits cc.btns classic_zl);
    right_trigger = pressed F (has_bits cc.btns classic_zr);
    select = pressed F (has_bits cc.btns classic_minus);
    start = pressed F (has_bits cc.btns classic_plus);
    left_stick_button = of_int (pos 0);
    right_stick_button = of_int (pos 0);
  }

  -- ProcessButtons: the state that is sent.
  unfoldable pub process_buttons : Wiimote Float → InputState Float
  process_buttons wm = elim wm.exp [ none ↦ remote_input wm.btns | some cc ↦ classic_input cc ]

  -- The switch of HandlePacket: the device, and what the driver sends. `none` is a failed assertion or
  -- a handshake that has not returned.
  unfoldable pub take_report : Wiimote Float → List ℕ → Option (Outcome (Wiimote Float) Float)
  take_report wm d =
      let msg = drop 2 d in
      let pressed_wm = wiimote_pressed_buttons wm msg in
      if byte d 1 == rpt_btn
      then some (record { state = pressed_wm; effects = [] })
      else if byte d 1 == rpt_read
      then (do
        h ← wiimote_handshake F rounds pressed_wm rpt_read (drop 5 msg)
        some (record { state = h.state; effects = h.effects }))
      else if byte d 1 == rpt_ctrl_status
      then (do
        h ← wiimote_handshake F rounds pressed_wm rpt_ctrl_status msg
        some (record { state = h.state; effects = h.effects }))
      else if byte d 1 == rpt_btn_exp
      then (do
        wm' ← wiimote_handle_expansion F pressed_wm (drop 2 msg)
        some (record { state = wm'; effects = [] }))
      else some (record { state = wm; effects = [] })

  unfoldable pub handle_packet : Wiimote Float → List ℕ → Option (Outcome (Wiimote Float) Float)
  handle_packet wm d = do
    r ← take_report wm d
    some (record r { effects = r.effects ++ send_controller_state (process_buttons r.state) ∷ [] })
