-- ===== src/Frontend/Hooks.antt =====
-- The method hooks of src/frontend/GCController_Hook_iOS.xm: the notification centre, the class methods of
-- GCController, and the key commands that become events of an iCade. A method's own implementation,
-- which each hook but those of GCController calls too, is the system's.
pub mod Repeats
pub mod Exchange
use mfi_wrapper.Prelude.{
  ℕ, Bool, true, false, List, [], ◌∷◌, ◌++◌, Option, none, some, ◌==◌, ◌&&◌, if◌then◌else◌,
}
use mfi_wrapper.Prelude.Int.{ℤ, wrap}
use mfi_wrapper.Protocol.{DataPacket}
use mfi_wrapper.Text.{codes}
use mfi_wrapper.Frontend.Element.{Call}
use mfi_wrapper.Frontend.Controller.{Controller}
use mfi_wrapper.Frontend.Manager.{
  Frontend, startup, start_wireless_controller_discovery, stop_wireless_controller_discovery,
}
use mfi_wrapper.Frontend.Keyboard.{Keyboard, KeyReaction, event}

-- isEqualToString: on bytes.
unfoldable pub same_text : List ℕ → List ℕ → Bool
same_text [] [] = true
same_text [] (y ∷ ys) = false
same_text (x ∷ xs) [] = false
same_text (x ∷ xs) (y ∷ ys) = x == y && same_text xs ys

-- A name may be nil, which is equal to nothing.
abbrev pub is_did_connect : Option (List ℕ) → Bool
is_did_connect none = false
is_did_connect (some name) = same_text name (codes "GCControllerDidConnectNotification")

-- addObserverForName:object:queue:usingBlock: and addObserver:selector:name:object:, behind the original.
unfoldable pub add_observer : Option (List ℕ) → Frontend → Frontend
unfolding same_text
add_observer name f = if is_did_connect name then startup f else f

-- What an application asks of GCController.
pub data Message : Type 0 where
  start_wireless_controller_discovery_with : Option ℕ → Message
  stop_wireless_controller_discovery' : Message
  get_controllers : Message

pub record Answer : Type 0 where
  pub frontend : Frontend
  pub calls : List Call
  -- What `controllers` returns.
  pub controllers : Option (List Controller)

-- The class methods of GCController.
unfoldable pub class_method : Message → Frontend → Answer
class_method (start_wireless_controller_discovery_with handler) f = record {
  frontend = start_wireless_controller_discovery f handler;
  calls = [];
  controllers = none;
}
class_method stop_wireless_controller_discovery' f =
    let r = stop_wireless_controller_discovery f in
    record { frontend = r.0; calls = r.1; controllers = none }
class_method get_controllers f =
    let g = startup f in record { frontend = g; calls = []; controllers = g.controllers }

-- A UIEvent: its time stamp, _isKeyDown and _keyCode, which may be asked only if _hidEvent is not null.
pub record UiEvent (Stamp : Type 0) : Type 0 where
  pub timestamp : Stamp
  pub has_hid_event : Bool
  pub is_key_down : Bool
  -- A `long long`.
  pub key_code : ℤ

-- The statics of the hook and of the keyboard, with the frontend, and what was done so far.
pub record Keys (Stamp : Type 0) : Type 0 where
  pub last_time_stamp : Stamp
  pub keyboard : Keyboard
  pub frontend : Frontend
  pub calls : List Call
  pub sent : List DataPacket

module _ {Stamp : Type 0} where
  abbrev pub after_key : Keys Stamp → KeyReaction → Keys Stamp
  after_key k r = record k {
    keyboard = r.keyboard;
    frontend = r.frontend;
    calls = k.calls ++ r.calls;
    sent = k.sent ++ r.sent;
  }

  -- Keyboard::Event, for an event that may be asked; it takes the code as a `uint32_t`.
  unfoldable pub type_key : UiEvent Stamp → Keys Stamp → Keys Stamp
  type_key e k =
      if e.has_hid_event
      then after_key k (event k.keyboard k.frontend e.is_key_down (wrap 0x100000000 e.key_code))
      else k

  -- _keyCommandForEvent:, over the comparison `!=` of time stamps.
  module _ (differs : Stamp → Stamp → Bool) where
    unfoldable pub key_command_for_event : Keys Stamp → UiEvent Stamp → Keys Stamp
    unfolding type_key
    key_command_for_event k e =
        if differs k.last_time_stamp e.timestamp
        then type_key e (record k { last_time_stamp = e.timestamp })
        else k

    unfoldable pub key_commands : Keys Stamp → List (UiEvent Stamp) → Keys Stamp
    key_commands k [] = k
    key_commands k (e ∷ es) = key_commands (key_command_for_event k e) es
