-- ===== src/HidPad/WiiMote/Driver.antt =====
-- The driver of src/backend/hidpad/wiimote.h and wiimote.cpp. Reports are numbers of bytes behind a
-- `msg` pointer; the pointer to the device is never null.
use mfi_wrapper.Prelude.{
  ℕ, ◌+◌, ◌-◌, ◌*◌, ◌/◌, ◌%◌, ◌^◌, Bool, false, not, List, [], ◌∷◌, ◌++◌, Option, none, some,
  length, replicate, bit_and, bit_or, ◌==◌, if◌then◌else◌,
}
use mfi_wrapper.Prelude.Int.{ℤ, pos, negsuc}
use mfi_wrapper.HidPad.Axis.{Calibration}
use mfi_wrapper.HidPad.WiiMote.Constants.{
  wm_set_report, bt_output, cmd_led, cmd_report_type, cmd_ctrl_status, cmd_write_data,
  cmd_read_data, led_1, led_2, led_3, led_4, button_all,
}
use mfi_wrapper.HidPad.Effect.{Effect, set_report, byte}

-- axis_t.
pub record Axis (Float : Type 0) : Type 0 where
  pub initialized : Bool
  pub calibration : Calibration
  pub value : Float

-- classic_ctrl_t, with the axes of its two joysticks.
pub record ClassicCtrl (Float : Type 0) : Type 0 where
  pub btns : ℕ
  pub left_x : Axis Float
  pub left_y : Axis Float
  pub right_x : Axis Float
  pub right_y : Axis Float

-- wiimote_t. The bits of `state` that the source uses are Booleans. `exp` is `none` for EXP_NONE: the
-- union behind it is cleared before its type is EXP_CLASSIC again.
pub record Wiimote (Float : Type 0) : Type 0 where
  pub unid : ℤ
  pub is_connected : Bool
  pub is_handshake : Bool
  pub is_handshake_complete : Bool
  pub is_expansion : Bool
  pub leds : ℕ
  pub handshake_state : ℕ
  pub exp : Option (ClassicCtrl Float)
  pub btns : ℕ

-- The identification that the handshake asks for.
abbrev pub classic_id : ℕ
classic_id = 0xA4200101

-- BIG_ENDIAN_LONG and BIG_ENDIAN_SHORT, to memory and from it.
unfoldable pub be32 : ℕ → List ℕ
be32 n = n / 2 ^ 24 % 256 ∷ n / 2 ^ 16 % 256 ∷ n / 2 ^ 8 % 256 ∷ n % 256 ∷ []

unfoldable pub be16 : ℕ → List ℕ
be16 n = n / 2 ^ 8 % 256 ∷ n % 256 ∷ []

abbrev pub long_at : List ℕ → ℕ
long_at d = 2 ^ 24 * byte d 0 + 2 ^ 16 * byte d 1 + 2 ^ 8 * byte d 2 + byte d 3

abbrev pub short_at : List ℕ → ℕ → ℕ
short_at d i = 2 ^ 8 * byte d i + byte d (i + 1)

-- The LED of a player, 0 to 3.
unfoldable pub player_led : ℤ → Option ℕ
player_led (pos i) =
    if i == 0
    then some led_1
    else if i == 1
    then some led_2
    else if i == 2
    then some led_3
    else if i == 3
    then some led_4
    else none
player_led (negsuc i) = none

module _ {Float : Type 0} where
  unfoldable pub wiimote_send : ℕ → List ℕ → Effect Float
  wiimote_send report_type msg =
      set_report false report_type (bit_or wm_set_report bt_output ∷ report_type ∷ msg)

  unfoldable pub wiimote_read_data : Wiimote Float → ℕ → ℕ → List (Effect Float)
  wiimote_read_data wm addr len =
      if not wm.is_connected
      then []
      else if len == 0
      then []
      else wiimote_send cmd_read_data (be32 addr ++ be16 len) ∷ []

  -- The payload has 21 bytes, zero behind the data.
  unfoldable pub wiimote_write_data : Wiimote Float → ℕ → List ℕ → List (Effect Float)
  wiimote_write_data wm addr data' =
      if not wm.is_connected
      then []
      else if length data' == 0
      then []
      else wiimote_send cmd_write_data
          (be32 addr ++ (length data' ∷ (data' ++ replicate (16 - length data') 0)))
        ∷ []

  unfoldable pub wiimote_status : Wiimote Float → List (Effect Float)
  wiimote_status wm = if not wm.is_connected then [] else wiimote_send cmd_ctrl_status (0 ∷ []) ∷ []

  unfoldable pub wiimote_data_report : Wiimote Float → ℕ → List (Effect Float)
  wiimote_data_report wm type =
      if not wm.is_connected then [] else wiimote_send cmd_report_type (0 ∷ type ∷ []) ∷ []

  -- The new state, and what is sent.
  unfoldable pub wiimote_set_leds : Wiimote Float → ℕ → Wiimote Float × List (Effect Float)
  wiimote_set_leds wm leds = if not wm.is_connected then (wm, []) else (
    record wm { leds = bit_and leds 0xF0 },
    wiimote_send cmd_led (bit_and leds 0xF0 ∷ []) ∷ [],
  )

  unfoldable pub wiimote_pressed_buttons : Wiimote Float → List ℕ → Wiimote Float
  wiimote_pressed_buttons wm msg = record wm { btns = bit_and (short_at msg 0) button_all }

  unfoldable pub set_player_led : Wiimote Float → Wiimote Float × List (Effect Float)
  set_player_led wm = elim (player_led wm.unid) [
    | none ↦ (wm, [])
    | some led ↦ wiimote_set_leds wm led
  ]

-- One round of the loop of `wiimote_handshake`: the new state, what is sent, and the value returned,
-- or `none` where the loop goes on.
pub record Round (Float : Type 0) : Type 0 where
  pub state : Wiimote Float
  pub effects : List (Effect Float)
  pub returned : Option ℕ
