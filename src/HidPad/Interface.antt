-- ===== src/HidPad/Interface.antt =====
-- `HIDPad::Interface` of src/backend/hidpad/HIDPad.h: the virtual methods over the five classes, and
-- the choice of the class, `HIDPad::Connect` of HIDPad.cpp.
pub mod Laws
use mfi_wrapper.Prelude.{
  ℕ, ◌+◌, ◌-◌, ◌^◌, Bool, true, false, List, [], ◌∷◌, ◌++◌, Option, none, some, ltb, if◌then◌else◌,
  ◌>>=◌,
}
use mfi_wrapper.Prelude.Int.{ℤ, pos, negsuc}
use mfi_wrapper.Text.{codes, contains}
use mfi_wrapper.Backend.Defs.{Description}
use mfi_wrapper.HidPad.Float.{FloatOps}
use mfi_wrapper.HidPad.Effect.{Effect, Outcome}
use mfi_wrapper.HidPad.Playstation3
use mfi_wrapper.HidPad.DualShock4
use mfi_wrapper.HidPad.WiiUPro
use mfi_wrapper.HidPad.WiiMote.Driver.{Wiimote}
use mfi_wrapper.HidPad.WiiMote.Pad as WiiMote

-- The classes, `dummy` being Interface itself.
pub data PadClass : Type 0 where
  playstation3 wii_u_pro wii_mote dual_shock4 dummy : PadClass

-- HIDPad::Connect: the class by the device's name.
unfoldable pub connect_class : List ℕ → PadClass
connect_class name =
    if contains name (codes "PLAYSTATION(R)3 Controller")
    then playstation3
    else if contains name (codes "Nintendo RVL-CNT-01-UC")
    then wii_u_pro
    else if contains name (codes "Nintendo RVL-CNT-01")
    then wii_mote
    else if contains name (codes "Wireless Controller")
    then dual_shock4
    else dummy

-- An object of one of the classes, without its handle and its connection.
pub data Pad (Float : Type 0) : Type 0 where
  ps3 : Playstation3.Playstation3 → Pad Float
  ds4 : DualShock4.DualShock4 → Pad Float
  pro : WiiUPro.WiiUPro → Pad Float
  remote : Wiimote Float → Pad Float
  other : Pad Float

-- GetVendorName and the controls; the base class has its own.
abbrev pub describe : PadClass → Description
describe playstation3 = Playstation3.description
describe dual_shock4 = DualShock4.description
describe wii_u_pro = WiiUPro.description
describe wii_mote = WiiMote.description
describe dummy = record {
  vendor_name = codes "Unknown Vendor";
  present_controls = 0xFFFFFFFF;
  analog_controls = 0;
}

-- The 32 bits of a player index as an `int32_t`.
unfoldable pub signed : ℕ → ℤ
signed n = if ltb n (2 ^ 31) then pos n else negsuc (2 ^ 32 - 1 - n)

module _ {S T Float : Type 0} where
  -- An outcome with another view of its state.
  abbrev pub with_state : (S → T) → Outcome S Float → Outcome T Float
  with_state f r = record { state = f r.state; effects = r.effects }

-- An object, with the static report buffer that all DualShock 4 objects share.
abbrev pub Shared : Type 0 → Type 0
Shared Float = List ℕ × Pad Float

module _ (F : FloatOps) where
  open F use {Float}

  -- `new` of the class: whether the build is for iOS, and what the memory of calibrations holds.
  unfoldable pub open_pad :
      Bool → WiiUPro.Calibrations → PadClass → Option (Outcome (Pad Float) Float)
  open_pad ios garbage playstation3 = some (with_state ps3 (Playstation3.open_pad F ios))
  open_pad ios garbage dual_shock4 = some (with_state ds4 (DualShock4.open_pad F))
  open_pad ios garbage wii_u_pro = some (with_state pro (WiiUPro.open_pad F garbage))
  open_pad ios garbage wii_mote = do r ← WiiMote.open_pad F; some (with_state remote r)
  open_pad ios garbage dummy = some (record { state = other; effects = [] })

  -- HandlePacket. `none` is a failed assertion.
  unfoldable pub handle_packet :
      List ℕ → Pad Float → List ℕ → ℕ → Option (Outcome (Shared Float) Float)
  handle_packet buffer (ps3 s) d size = do
    r ← Playstation3.handle_packet F s d
    some (with_state (λ t. (buffer, ps3 t)) r)
  handle_packet buffer (ds4 s) d size = do
    r ← DualShock4.handle_packet F buffer s d size
    some (with_state (λ t. (r.report_buffer, ds4 t)) r.outcome)
  handle_packet buffer (pro s) d size = do
    r ← WiiUPro.handle_packet F s d size
    some (with_state (λ t. (buffer, pro t)) r)
  handle_packet buffer (remote s) d size = do
    r ← WiiMote.handle_packet F s d
    some (with_state (λ t. (buffer, remote t)) r)
  handle_packet buffer other d size = some (record { state = (buffer, other); effects = [] })

  -- What HandlePacket leaves in the buffer that it was given.
  unfoldable pub data_after : Pad Float → List ℕ → ℕ → List ℕ
  data_after (pro s) d size = WiiUPro.buffer_after d size
  data_after (ps3 s) d size = d
  data_after (ds4 s) d size = d
  data_after (remote s) d size = d
  data_after other d size = d

  -- SetPlayerIndex.
  unfoldable pub set_player_index : Pad Float → ℤ → Outcome (Pad Float) Float
  set_player_index (ps3 s) i = record {
    state = ps3 (Playstation3.set_player_index s i);
    effects = [];
  }
  set_player_index (ds4 s) i = record {
    state = ds4 (DualShock4.set_player_index s i);
    effects = [];
  }
  set_player_index (pro s) i = record { state = pro (WiiUPro.set_player_index s i); effects = [] }
  set_player_index (remote s) i = with_state remote (WiiMote.set_player_index s i)
  set_player_index other i = record { state = other; effects = [] }
