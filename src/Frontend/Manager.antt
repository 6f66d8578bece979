-- ===== src/Frontend/Manager.antt =====
-- The functions of src/frontend/frontend.mm. A function returns the new state, what the application sees,
-- and the packets sent to the backend. `none` is an exception that Objective-C raises.
pub mod Laws
pub mod Arrays
use mathlib.Core.Option
use mfi_wrapper.Prelude.{
  ℕ, zero, suc, ◌^◌, Bool, true, false, ◌&&◌, List, [], ◌∷◌, ◌++◌, Option, none, some, ◌==◌, ◌!=◌,
  if◌then◌else◌,
}
use mfi_wrapper.Prelude.Int.{ℤ, wrap}
use mfi_wrapper.Protocol.{
  ConnectPacket, InputState, DataPacket, connect, disconnect, input_state, set_player_index,
  pause_pressed, local_handle,
}
use mfi_wrapper.Protocol.Wire.{decode}
use mfi_wrapper.Frontend.Element.{
  Call, paused, discovery_completed, did_connect, did_disconnect, call,
}
use mfi_wrapper.Frontend.Controller.{
  Controller, controller_for_handle, player_index_unset, tweak_update_buttons,
}

pub record Frontend : Type 0 where
  -- The array, if it was created.
  pub controllers : Option (List Controller)
  pub is_connected : Bool
  pub discovery_completion_handler : Option ℕ

abbrev pub initial : Frontend
initial = record { controllers = none; is_connected = false; discovery_completion_handler = none }

pub record Reaction : Type 0 where
  pub frontend : Frontend
  pub calls : List Call
  pub sent : List DataPacket

-- The place of the first controller with a handle; `none` is -1.
unfoldable pub find_controller_by_handle : ℕ → List Controller → Option ℕ
find_controller_by_handle handle [] = none
find_controller_by_handle handle (c ∷ cs) =
    let later = find_controller_by_handle handle cs in
    if c.tweak_handle == handle then some 0 else Option.map suc later

-- controllers[i], an update of it, and removeObjectAtIndex: for a place in the array.
unfoldable pub at : List Controller → ℕ → Option Controller
at [] i = none
at (c ∷ cs) zero = some c
at (c ∷ cs) (suc i) = at cs i

unfoldable pub replace_at : List Controller → ℕ → Controller → List Controller
replace_at [] i new = []
replace_at (c ∷ cs) zero new = new ∷ cs
replace_at (c ∷ cs) (suc i) new = c ∷ replace_at cs i new

unfoldable pub remove_at : List Controller → ℕ → List Controller
remove_at [] i = []
remove_at (c ∷ cs) zero = cs
remove_at (c ∷ cs) (suc i) = c ∷ remove_at cs i

-- Startup, in a build with a backend.
unfoldable pub startup : Frontend → Frontend
startup f = record f {
  controllers = elim f.controllers [ none ↦ some [] | some cs ↦ some cs ];
  is_connected = true;
}

-- SetControllerIndex.
unfoldable pub set_controller_index : Frontend → ℕ → ℤ → List DataPacket
set_controller_index f handle i =
    if f.is_connected && handle != local_handle
    then set_player_index handle (wrap (2 ^ 32) i) ∷ []
    else []

-- setPlayerIndex: what the controller keeps. The handles of the controllers in the array differ.
unfoldable pub indexed : ℕ → ℤ → List Controller → List Controller
indexed handle i [] = []
indexed handle i (c ∷ cs) =
    (if c.tweak_handle == handle then record c { player_index = i } else c) ∷ indexed handle i cs

unfoldable pub set_player_index_of : Frontend → ℕ → ℤ → Frontend
set_player_index_of f handle i = record f {
  controllers = Option.map (indexed handle i) f.controllers;
}

-- The handlers as numbers that the application knows. A null handler is `none`.
unfoldable pub start_wireless_controller_discovery : Frontend → Option ℕ → Frontend
unfolding startup
start_wireless_controller_discovery f block = record (startup f) {
  discovery_completion_handler = block;
}

-- Without what the handler does: Discovery runs it.
unfoldable pub stop_wireless_controller_discovery : Frontend → Frontend × List Call
unfolding startup
stop_wireless_controller_discovery f = (
  record (startup f) { discovery_completion_handler = none },
  call f.discovery_completion_handler discovery_completed,
)

-- The place that the packets' handlers look for.
unfoldable pub place : ℕ → List Controller → Option ℕ
place handle cs = if handle == 0 then none else find_controller_by_handle handle cs

-- A message to the null array does nothing.
unfoldable pub handle_packet_connect : Frontend → ℕ → ConnectPacket → Reaction
handle_packet_connect f handle p = record {
  frontend = record f {
    controllers = Option.map (λ cs. cs ++ controller_for_handle handle p ∷ []) f.controllers;
  };
  calls = did_connect handle ∷ [];
  sent = set_controller_index f handle player_index_unset;
}

-- removeObjectAtIndex: raises for -1.
unfoldable pub handle_packet_disconnect : Frontend → ℕ → Option Reaction
handle_packet_disconnect f handle = elim f.controllers [
  | none ↦ some (record { frontend = f; calls = did_disconnect none ∷ []; sent = [] })
  | some cs ↦ elim (place handle cs) [
    | none ↦ none
    | some i ↦ some (record {
      frontend = record f { controllers = some (remove_at cs i) };
      calls = did_disconnect (Option.map (λ c. c.tweak_handle) (at cs i)) ∷ [];
      sent = [];
    })
  ]
]

-- The controller that a packet is for.
unfoldable pub target : Frontend → ℕ → Option (List Controller × ℕ × Controller)
unfolding place
target f handle = elim f.controllers [
  | none ↦ none
  | some cs ↦ elim (place handle cs) [
    | none ↦ none
    | some i ↦ Option.map (λ c. (cs, i, c)) (at cs i)
  ]
]

-- A message to a null controller does nothing.
unfoldable pub handle_packet_input_state : Frontend → ℕ → InputState ℕ → Reaction
handle_packet_input_state f handle s = elim (target f handle) [
  | none ↦ record { frontend = f; calls = []; sent = [] }
  | some (cs, i, c) ↦
      let (c', calls) = tweak_update_buttons c s in
      record {
        frontend = record f { controllers = some (replace_at cs i c') };
        calls = calls;
        sent = [];
      }
]

unfoldable pub handle_packet_pause_pressed : Frontend → ℕ → List Call
handle_packet_pause_pressed f handle = elim (target f handle) [
  | none ↦ []
  | some (cs, i, c) ↦ call c.controller_paused_handler paused
]

-- FrontendConnection::HandlePacket, on what the switch sees.
unfoldable pub dispatch : Frontend → Option DataPacket → Option Reaction
dispatch f none = some (record { frontend = f; calls = []; sent = [] })
dispatch f (some (connect handle p)) = some (handle_packet_connect f handle p)
dispatch f (some (disconnect handle)) = handle_packet_disconnect f handle
dispatch f (some (input_state handle s)) = some (handle_packet_input_state f handle s)
dispatch f (some (set_player_index handle i)) =
    some (record { frontend = f; calls = []; sent = [] })
dispatch f (some (pause_pressed handle)) =
    some (record { frontend = f; calls = handle_packet_pause_pressed f handle; sent = [] })

unfoldable pub handle_packet : Frontend → List ℕ → Option Reaction
handle_packet f m = dispatch f (decode m)
