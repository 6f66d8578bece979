-- ===== src/Frontend/Keyboard.antt =====
-- src/frontend/keyboard.mm: an iCade, a joystick that types letters, as a controller.
pub mod Laws
use mfi_wrapper.Prelude.{
  ℕ, ◌-◌, Bool, true, false, ◌&&◌, List, [], ◌∷◌, ◌++◌, Option, none, some, length, get_or,
  replicate, ltb, if◌then◌else◌,
}
use mfi_wrapper.Text.{codes}
use mfi_wrapper.Protocol.{InputState, DataPacket, ConnectPacket, local_handle, normal_elements}
use mfi_wrapper.Backend.Defs.{name_field}
use mfi_wrapper.Frontend.Value.{one, minus_one}
use mfi_wrapper.Frontend.Element.{Call}
use mfi_wrapper.Frontend.Manager.{
  Frontend, Reaction, handle_packet_connect, handle_packet_input_state, handle_packet_pause_pressed,
}

-- iCade8BittySym
pub data Sym : Type 0 where
  up_sym down_sym left_sym right_sym up_lf up_rt lw_lf lw_rt l1 r1 select_sym start_sym : Sym

-- A row of iCadeMap: whether the key is typed when the button goes up, and the button; `none` is -1.
abbrev pub Row : Type 0
Row = Bool × Option Sym

unfoldable pub icade_map : List Row
icade_map =
    (false, none)
    ∷ (false, none)
    ∷ (false, none)
    ∷ (false, none)
    ∷ (false, some left_sym)
    ∷ (false, none)
    ∷ (true, some right_sym)
    ∷ (false, some right_sym)
    ∷ (true, some up_sym)
    ∷ (true, some start_sym)
    ∷ (true, some up_rt)
    ∷ (false, some l1)
    ∷ (false, some up_lf)
    ∷ (false, some r1)
    ∷ (false, some lw_lf)
    ∷ (false, some lw_rt)
    ∷ (true, some up_lf)
    ∷ (true, some r1)
    ∷ (false, some up_rt)
    ∷ (true, some lw_lf)
    ∷ (true, some left_sym)
    ∷ (true, some l1)
    ∷ (false, none)
    ∷ (true, some select_sym)
    ∷ (false, some start_sym)
    ∷ (true, some lw_rt)
    ∷ (false, some up_sym)
    ∷ (false, some down_sym)
    ∷ (false, some select_sym)
    ∷ (true, some down_sym)
    ∷ (false, none)
    ∷ (false, none)
    ∷ []

-- The two statics, the packet as its input state.
pub record Keyboard : Type 0 where
  pub initialized : Bool
  pub state : InputState ℕ

-- A static is zero at first.
abbrev pub neutral : InputState ℕ
neutral = record {
  dpad_x = 0;
  dpad_y = 0;
  a = 0;
  b = 0;
  x = 0;
  y = 0;
  left_shoulder = 0;
  right_shoulder = 0;
  left_stick_x = 0;
  left_stick_y = 0;
  right_stick_x = 0;
  right_stick_y = 0;
  left_trigger = 0;
  right_trigger = 0;
  select = 0;
  start = 0;
  left_stick_button = 0;
  right_stick_button = 0;
}

abbrev pub blank : Keyboard
blank = record { initialized = false; state = neutral }

abbrev pub icade_packet : ConnectPacket
icade_packet = record {
  vendor_name = name_field (codes "iCade Device");
  present_controls = normal_elements;
  analog_controls = 0;
}

-- CHECK
abbrev pub check : Bool → ℕ → ℕ
check is_up v = if is_up then 0 else v

-- The switch on the button, without START's case, which leaves the state; SELECT has no case.
unfoldable pub press : Sym → Bool → InputState ℕ → InputState ℕ
press lw_lf is_up s = record s { a = check is_up one }
press lw_rt is_up s = record s { b = check is_up one }
press up_lf is_up s = record s { x = check is_up one }
press up_rt is_up s = record s { y = check is_up one }
press l1 is_up s = record s { left_shoulder = check is_up one }
press r1 is_up s = record s { right_shoulder = check is_up one }
press up_sym is_up s = record s { dpad_y = check is_up minus_one }
press down_sym is_up s = record s { dpad_y = check is_up one }
press left_sym is_up s = record s { dpad_x = check is_up minus_one }
press right_sym is_up s = record s { dpad_x = check is_up one }
press start_sym is_up s = s
press select_sym is_up s = s

-- A row of a button.
abbrev pub button_row : Row → Option (Bool × Sym)
button_row (is_up, none) = none
button_row (is_up, some sym) = some (is_up, sym)

-- The row that an event is for.
unfoldable pub key : Bool → ℕ → Option (Bool × Sym)
key down code =
    if down && ltb code 0x20 then button_row (get_or icade_map code (false, none)) else none

pub record KeyReaction : Type 0 where
  pub keyboard : Keyboard
  pub frontend : Frontend
  pub calls : List Call
  pub sent : List DataPacket

-- The first event connects the controller.
unfoldable pub initialize : Keyboard → Frontend → KeyReaction
initialize k f =
    let r = handle_packet_connect f local_handle icade_packet in
    if k.initialized then record { keyboard = k; frontend = f; calls = []; sent = [] } else record {
      keyboard = record k { initialized = true };
      frontend = r.frontend;
      calls = r.calls;
      sent = r.sent;
    }

-- The rest of Event.
unfoldable pub act : Bool × Sym → Keyboard → Frontend → KeyReaction
unfolding press
act (is_up, start_sym) k f = record {
  keyboard = k;
  frontend = f;
  calls = handle_packet_pause_pressed f local_handle;
  sent = [];
}
act (is_up, sym) k f =
    let s = press sym is_up k.state in
    let r = handle_packet_input_state f local_handle s in
    record {
      keyboard = record k { state = s };
      frontend = r.frontend;
      calls = r.calls;
      sent = r.sent;
    }

-- Event
unfoldable pub event : Keyboard → Frontend → Bool → ℕ → KeyReaction
unfolding initialize act
event k f down code =
    let r = initialize k f in
    elim (key down code) [
      | none ↦ r
      | some row ↦
          let after = act row r.keyboard r.frontend in
          record after { calls = r.calls ++ after.calls; sent = r.sent ++ after.sent }
    ]
