-- ===== src/Protocol.antt =====
-- include/protocol.h: the controls of a controller, and the packets that the backend and the
-- frontend exchange. A `float` of a packet is its 32-bit pattern; memory is little endian, as on the
-- ARM and x86 targets of the Makefiles.
pub mod Wire
use mfi_wrapper.Prelude.{ℕ, ◌+◌, ◌^◌, List}

-- MFiButtons: the controls in order, by their index.
pub data Button : Type 0 where
  dpad a_button b_button x_button y_button left_shoulder right_shoulder left_thumbstick
        right_thumbstick left_trigger right_trigger select start left_stick_button
        right_stick_button :
      Button

-- The index of a control.
abbrev pub index : Button → ℕ
index dpad = 0
index a_button = 1
index b_button = 2
index x_button = 3
index y_button = 4
index left_shoulder = 5
index right_shoulder = 6
index left_thumbstick = 7
index right_thumbstick = 8
index left_trigger = 9
index right_trigger = 10
index select = 11
index start = 12
index left_stick_button = 13
index right_stick_button = 14

-- Its MFi_..._Bit. In `#define DEFBIT(X) MFi_##X##_Bit = (1 << MFi_X)` the last `MFi_X` is one name, that
-- of the X button, and not the macro's argument.
abbrev pub button_bit : Button → ℕ
button_bit k = 2 ^ index x_button

-- The sets of controls that MFiButtons also names.
abbrev pub normal_elements : ℕ
normal_elements = 0x7F

abbrev pub extended_elements : ℕ
extended_elements = 0x780

abbrev pub full_elements : ℕ
full_elements = 0x7800

abbrev pub all_elements : ℕ
all_elements = 0x7FFF

-- MFiWLocalHandle.
abbrev pub local_handle : ℕ
local_handle = 0xFFFFFFFF

-- MFiWConnectPacket, with the 256 bytes of the name.
pub record ConnectPacket : Type 0 where
  pub vendor_name : List ℕ
  pub present_controls : ℕ
  pub analog_controls : ℕ

-- MFiWInputStatePacket, over the type that stands for `float`.
pub record InputState (F : Type 0) : Type 0 where
  pub dpad_x : F
  pub dpad_y : F
  pub a : F
  pub b : F
  pub x : F
  pub y : F
  pub left_shoulder : F
  pub right_shoulder : F
  pub left_stick_x : F
  pub left_stick_y : F
  pub right_stick_x : F
  pub right_stick_y : F
  pub left_trigger : F
  pub right_trigger : F
  pub select : F
  pub start : F
  pub left_stick_button : F
  pub right_stick_button : F

-- MFiWPacketType.
abbrev pub packet_connect : ℕ
packet_connect = 0

abbrev pub packet_disconnect : ℕ
packet_disconnect = 1

abbrev pub packet_input_state : ℕ
packet_input_state = 2

abbrev pub packet_set_player_index : ℕ
packet_set_player_index = 3

abbrev pub packet_pause_pressed : ℕ
packet_pause_pressed = 4

-- MFiWDataPacket: the header's handle, and the member of the union that the type selects.
pub data DataPacket : Type 0 where
  connect : ℕ → ConnectPacket → DataPacket
  disconnect : ℕ → DataPacket
  input_state : ℕ → InputState ℕ → DataPacket
  set_player_index : ℕ → ℕ → DataPacket
  pause_pressed : ℕ → DataPacket

-- The sizes of the packets, and `sizeof(MFiWDataPacket)`.
abbrev pub generic_size : ℕ
generic_size = 12

abbrev pub connect_size : ℕ
connect_size = 12 + 264

abbrev pub input_state_size : ℕ
input_state_size = 12 + 72

abbrev pub set_player_index_size : ℕ
set_player_index_size = 12 + 4

abbrev pub data_packet_size : ℕ
data_packet_size = 276
