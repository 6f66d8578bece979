-- ===== src/System.antt =====
-- The whole program: src/backend/hidmanager/HIDManager.cpp drives the controllers of src/backend/hidpad,
-- which call src/backend/backend.cpp, which exchanges packets with src/frontend/frontend.mm. A step is one
-- callback of a run loop, or one call of the application. The socket pair is two queues of packets
-- (the bytes that carry them are Connection's matter), which take all that is written here; Room has the
-- limits of the sockets' buffers, and Safety's steps end where they are passed. A Connection and its HIDPad::Interface point at
-- each other and live together: both pointers are one number.
pub mod Memory
pub mod Room
pub mod Queue
pub mod Calls
pub mod Invariant
pub mod Links
pub mod Methods
pub mod Entry
pub mod Attach
pub mod Remove
pub mod Messages
pub mod Safety
pub mod Drain
pub mod Arrays
pub mod Reports
use mfi_wrapper.Prelude.{ℕ, Bool, List, [], ◌∷◌, ◌++◌, Option, none, some, length, ◌>>=◌}
use mfi_wrapper.Prelude.Int.{ℤ}
use mfi_wrapper.Protocol.{InputState, DataPacket}
use mfi_wrapper.Backend.Defs as Backend
use mfi_wrapper.Backend.Defs.{Backend, Description}
use mfi_wrapper.HidPad.Float.{FloatOps}
use mfi_wrapper.HidPad.Effect.{
  Effect, set_report, get_report, finalize_connection, send_pause_pressed, send_controller_state,
  sleep, Outcome,
}
use mfi_wrapper.HidPad.WiiUPro.{Calibrations}
use mfi_wrapper.HidPad.Interface as Interface
use mfi_wrapper.HidPad.Interface.{PadClass, Pad, connect_class, describe, signed}
use mfi_wrapper.HidManager.{blank_data, stored, packet_size}
use mfi_wrapper.Frontend.Manager as Manager
use mfi_wrapper.Frontend.Manager.{Frontend}
use mfi_wrapper.System.Memory.{Table, lookup, put, remove}

-- A Connection with its Interface.
pub record Device (Float : Type 0) : Type 0 where
  pub class : PadClass
  pub pad : Pad Float
  pub handle : ℕ
  pub data_bytes : List ℕ

pub record System (Float : Type 0) : Type 0 where
  pub backend : Backend
  -- The live Connections by their addresses.
  pub connections : Table (Device Float)
  -- The static of DualShock4::SetReport.
  pub report_buffer : List ℕ
  pub to_frontend : List DataPacket
  pub to_backend : List DataPacket
  pub frontend : Frontend

-- The parts that the calls of a controller change: the registry, its own handle, and the packets sent.
pub record Port : Type 0 where
  pub registry : Backend
  pub own_handle : ℕ
  pub sent : List DataPacket

module _ (F : FloatOps) where
  open F use {Float, bits}

  -- An input state as its packet holds it.
  unfoldable pub state_bits : InputState Float → InputState ℕ
  state_bits s = record {
    dpad_x = bits s.dpad_x;
    dpad_y = bits s.dpad_y;
    a = bits s.a;
    b = bits s.b;
    x = bits s.x;
    y = bits s.y;
    left_shoulder = bits s.left_shoulder;
    right_shoulder = bits s.right_shoulder;
    left_stick_x = bits s.left_stick_x;
    left_stick_y = bits s.left_stick_y;
    right_stick_x = bits s.right_stick_x;
    right_stick_y = bits s.right_stick_y;
    left_trigger = bits s.left_trigger;
    right_trigger = bits s.right_trigger;
    select = bits s.select;
    start = bits s.start;
    left_stick_button = bits s.left_stick_button;
    right_stick_button = bits s.right_stick_button;
  }

  -- One call of a controller. Reports go to IOKit.
  unfoldable pub perform_one : Description → ℕ → Port → Effect Float → Port
  perform_one d id port finalize_connection =
      let r = Backend.attach_controller port.registry id d in
      record { registry = r.backend; own_handle = r.handle; sent = port.sent ++ r.sent }
  perform_one d id port send_pause_pressed = record port {
    sent = port.sent ++ Backend.send_pause_pressed port.own_handle;
  }
  perform_one d id port (send_controller_state s) = record port {
    sent = port.sent ++ Backend.send_controller_state port.own_handle (state_bits s);
  }
  perform_one d id port (set_report feature n bytes) = port
  perform_one d id port (get_report feature n size) = port
  perform_one d id port (sleep n) = port

  unfoldable pub perform : Description → ℕ → Port → List (Effect Float) → Port
  perform d id port [] = port
  perform d id port (e ∷ es) = perform d id (perform_one d id port e) es

  -- DeviceAttached, with HIDPad::Connect: the address and the memory that `new` gives, and the name.
  -- `none` is a failed assertion.
  unfoldable pub device_attached :
      Bool → ℕ → Calibrations → List ℕ → System Float → Option (System Float)
  device_attached ios id garbage name s = do
    let class = connect_class name
    r ← Interface.open_pad F ios garbage class
    let port =
        perform (describe class) id (record { registry = s.backend; own_handle = 0; sent = [] })
          r.effects
    some (record s {
      backend = port.registry;
      connections =
          put id
            (record {
              class = class;
              pad = r.state;
              handle = port.own_handle;
              data_bytes = blank_data;
            })
            s.connections;
      to_frontend = s.to_frontend ++ port.sent;
    })

  -- What a method of a controller leaves.
  unfoldable pub after_method :
      ℕ → Device Float → Outcome (Pad Float) Float → List ℕ → List ℕ → System Float → System Float
  after_method id dev r data_bytes buffer s =
      let port =
        perform (describe dev.class) id
          (record { registry = s.backend; own_handle = dev.handle; sent = [] }) r.effects in
      record s {
        backend = port.registry;
        connections =
            put id
              (record {
                class = dev.class;
                pad = r.state;
                handle = port.own_handle;
                data_bytes = data_bytes;
              })
              s.connections;
        report_buffer = buffer;
        to_frontend = s.to_frontend ++ port.sent;
      }

  -- DeviceReport; `none` is also a pointer to a Connection that was deleted.
  unfoldable pub device_report : ℕ → List ℕ → System Float → Option (System Float)
  device_report id report s = do
    dev ← lookup id s.connections
    let bytes = stored dev.data_bytes report
    let size = packet_size report
    r ← Interface.handle_packet F s.report_buffer dev.pad bytes size
    some (
        after_method id dev (record { state = r.state.1; effects = r.effects })
          (Interface.data_after F dev.pad bytes size) r.state.0 s)

  -- DeviceRemoved.
  unfoldable pub device_removed : ℕ → System Float → Option (System Float)
  device_removed id s = do
    dev ← lookup id s.connections
    let r = Backend.detach_controller s.backend dev.handle
    some (record s {
      backend = r.0;
      connections = remove id s.connections;
      to_frontend = s.to_frontend ++ r.1;
    })

  -- The frontend takes a packet; `none` is an exception.
  unfoldable pub frontend_receives :
      DataPacket → List DataPacket → System Float → Option (System Float)
  frontend_receives p rest s = do
    r ← Manager.dispatch s.frontend (some p)
    some (record s {
      to_frontend = rest;
      to_backend = s.to_backend ++ r.sent;
      frontend = r.frontend;
    })

  -- A pointer that the registry gave is followed; `none` is a deleted object.
  unfoldable pub tell : Option (ℕ × ℕ) → System Float → Option (System Float)
  tell none s = some s
  tell (some (id, i)) s = do
    dev ← lookup id s.connections
    some (
        after_method id dev (Interface.set_player_index F dev.pad (signed i)) dev.data_bytes
          s.report_buffer s)

  -- The backend takes a packet.
  unfoldable pub backend_receives :
      DataPacket → List DataPacket → System Float → Option (System Float)
  backend_receives p rest s =
      let r = Backend.dispatch s.backend (some p) in
      tell r.1 (record s { backend = r.0; to_backend = rest })

  -- Either side's turn: nothing happens while its queue is empty.
  unfoldable pub deliver_to_frontend : System Float → Option (System Float)
  deliver_to_frontend s = elim s.to_frontend [ [] ↦ some s | p ∷ rest ↦ frontend_receives p rest s ]

  unfoldable pub deliver_to_backend : System Float → Option (System Float)
  deliver_to_backend s = elim s.to_backend [ [] ↦ some s | p ∷ rest ↦ backend_receives p rest s ]

  -- setPlayerIndex: on a controller that the application has, connected or not.
  unfoldable pub application_sets_index : ℕ → ℤ → System Float → System Float
  application_sets_index handle i s = record s {
    to_backend = s.to_backend ++ Manager.set_controller_index s.frontend handle i;
    frontend = Manager.set_player_index_of s.frontend handle i;
  }

-- The program at its start, after Startup.
unfoldable pub boot : {Float : Type 0} → List ℕ → System Float
boot buffer = record {
  backend = Backend.initial;
  connections = [];
  report_buffer = buffer;
  to_frontend = [];
  to_backend = [];
  frontend = Manager.startup Manager.initial;
}
