-- ===== src/System/Invariant.antt =====
-- The invariant of the whole program between two steps.
use mfi_wrapper.Prelude.{ℕ, ◌<◌, ◌≡◌, refl, ◌⊎◌, List, [], Option, none, some, arith, none_not}
use mfi_wrapper.Protocol.{DataPacket}
use mfi_wrapper.Backend.Defs.{Backend, find}
use mfi_wrapper.Backend.Registry.{controller, IsRegistry}
use mfi_wrapper.HidPad.Float.{FloatOps, FloatLaws}
use mfi_wrapper.HidPad.Interface.Laws.{IsPad}
use mfi_wrapper.Frontend.Controller.{Controller}
use mfi_wrapper.Frontend.Manager.{Frontend, startup}
use mfi_wrapper.Frontend.Manager.Laws.{handles_of, with_array}
use mfi_wrapper.System.{Device, System, boot}
use mfi_wrapper.System.Memory.{Table, lookup}
use mfi_wrapper.System.Queue.{follow_all, count, AllSound, AllIndices}

-- How often the frontend is to have a handle.
abbrev pub presence : Option ℕ → ℕ
presence none = 0
presence (some id) = 1

-- The registry and the queue to the frontend, against the controllers that the frontend has: when it has
-- taken all that waits, it has one controller for each handle that stands for one, and no other.
pub record IsShown (b : Backend) (waiting : List DataPacket) (f : Frontend) : Type 0 where
  pub listed : List Controller
  pub array : f ≡ with_array f listed
  pub at_end : List ℕ
  pub replays : follow_all waiting (handles_of listed) ≡ some at_end
  pub counts : (k : ℕ) → count k at_end ≡ presence (controller b k)
  pub sound : AllSound waiting

module _ (F : FloatOps) (L : FloatLaws F) where
  open F use {Float}

  -- The registry and the objects in memory: every pointer of the registry is to a live object that knows
  -- its handle, and every live object is under its handle or never got one.
  pub record IsLinked (b : Backend) (t : Table (Device Float)) : Type 0 where
    pub registry : IsRegistry b
    pub positive : 0 < b.next_handle
    pub unnamed : find 0 b.devices ≡ none
    pub pads : (id : ℕ) (dev : Device Float) → lookup id t ≡ some dev → IsPad F L dev.pad
    pub entered :
        (id : ℕ) (dev : Device Float)
        → lookup id t ≡ some dev
        → (dev.handle ≡ 0) ⊎ (controller b dev.handle ≡ some id)
    pub pointed :
        (h id : ℕ)
        → controller b h ≡ some id
        → (dev : Device Float) × (lookup id t ≡ some dev) × (dev.handle ≡ h)

  pub record IsSystem (s : System Float) : Type 0 where
    pub linked : IsLinked s.backend s.connections
    pub shown : IsShown s.backend s.to_frontend s.frontend
    pub indices : AllIndices s.to_backend

  -- It holds at the start.
  pub boot-IsSystem : (buffer : List ℕ) → IsSystem (boot buffer)
  unfolding boot controller find lookup follow_all startup
  boot-IsSystem buffer = record {
    linked = record {
      registry = record { distinct = tt; given_out = λ h le. refl };
      positive = omega arith;
      unnamed = refl;
      pads = λ id dev e. absurd (none_not e);
      entered = λ id dev e. absurd (none_not e);
      pointed = λ h id e. absurd (none_not e);
    };
    shown = record {
      listed = [];
      array = refl;
      at_end = [];
      replays = refl;
      counts = λ k. refl;
      sound = tt;
    };
    indices = tt;
  }
