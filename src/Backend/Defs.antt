-- ===== src/Backend/Defs.antt =====
-- The state and the functions of src/backend/backend.cpp. A pointer to a controller is a number, and a
-- null pointer is `none`. Each function returns the new state with the packets that it sends.
use mfi_wrapper.Prelude.{
  ℕ, ◌+◌, ◌-◌, ◌%◌, ◌^◌, List, [], ◌∷◌, ◌++◌, Option, none, some, length, take, replicate, ◌==◌,
  if◌then◌else◌,
}
use mfi_wrapper.Protocol.{
  ConnectPacket, InputState, DataPacket, connect, disconnect, input_state, set_player_index,
  pause_pressed,
}
use mfi_wrapper.Protocol.Wire.{decode}

-- `std::map<uint32_t, HIDPad::Interface*>`.
abbrev pub Devices : Type 0
Devices = List (ℕ × Option ℕ)

unfoldable pub find : ℕ → Devices → Option (Option ℕ)
find h [] = none
find h ((k, p) ∷ rest) = if k == h then some p else find h rest

-- `devices[h] = p`.
unfoldable pub assign : ℕ → Option ℕ → Devices → Devices
assign h p [] = (h, p) ∷ []
assign h p ((k, q) ∷ rest) = if k == h then (k, p) ∷ rest else (k, q) ∷ assign h p rest

unfoldable pub erase : ℕ → Devices → Devices
erase h [] = []
erase h ((k, p) ∷ rest) = if k == h then rest else (k, p) ∷ erase h rest

pub record Backend : Type 0 where
  pub next_handle : ℕ
  pub devices : Devices

abbrev pub initial : Backend
initial = record { next_handle = 1; devices = [] }

-- What a controller tells of itself: GetVendorName, GetPresentControls and GetAnalogControls.
pub record Description : Type 0 where
  pub vendor_name : List ℕ
  pub present_controls : ℕ
  pub analog_controls : ℕ

-- `strlcpy` into an array of 256 zeros.
unfoldable pub name_field : List ℕ → List ℕ
name_field name = take 255 name ++ replicate (256 - length (take 255 name)) 0

unfoldable pub connect_packet : Description → ConnectPacket
unfolding name_field
connect_packet d = record {
  vendor_name = name_field d.vendor_name;
  present_controls = d.present_controls;
  analog_controls = d.analog_controls;
}

pub record Attached : Type 0 where
  pub backend : Backend
  pub handle : ℕ
  pub sent : List DataPacket

-- `nextHandle ++` on a `uint32_t`.
unfoldable pub attach_controller : Backend → ℕ → Description → Attached
attach_controller b pad d = record {
  backend = record {
    next_handle = (b.next_handle + 1) % 2 ^ 32;
    devices = assign b.next_handle (some pad) b.devices;
  };
  handle = b.next_handle;
  sent = connect b.next_handle (connect_packet d) ∷ [];
}

-- The handle is the controller's own, 0 if it was never attached.
unfoldable pub detach_controller : Backend → ℕ → Backend × List DataPacket
detach_controller b handle = elim (find handle b.devices) [
  | none ↦ (b, [])
  | some p ↦ (record b { devices = erase handle b.devices }, disconnect handle ∷ [])
]

unfoldable pub send_controller_state : ℕ → InputState ℕ → List DataPacket
send_controller_state handle s = input_state handle s ∷ []

unfoldable pub send_pause_pressed : ℕ → List DataPacket
send_pause_pressed handle = pause_pressed handle ∷ []

-- BackendConnection::HandlePacket: the new state, and the controller that is told its player index.
-- `devices[handle]` enters a null pointer for a handle that is not there.
unfoldable pub handle_set_player_index : Backend → ℕ → ℕ → Backend × Option (ℕ × ℕ)
handle_set_player_index b handle i = elim (find handle b.devices) [
  | none ↦ (record b { devices = assign handle none b.devices }, none)
  | some none ↦ (b, none)
  | some (some pad) ↦ (b, some (pad, i))
]

-- The switch on the packet's type; `none` is a packet of no known type.
unfoldable pub dispatch : Backend → Option DataPacket → Backend × Option (ℕ × ℕ)
dispatch b none = (b, none)
dispatch b (some (connect handle p)) = (b, none)
dispatch b (some (disconnect handle)) = (b, none)
dispatch b (some (input_state handle s)) = (b, none)
dispatch b (some (set_player_index handle i)) = handle_set_player_index b handle i
dispatch b (some (pause_pressed handle)) = (b, none)

unfoldable pub handle_packet : Backend → List ℕ → Backend × Option (ℕ × ℕ)
handle_packet b m = dispatch b (decode m)
