-- ===== src/System/Safety.antt =====
-- Runs of the whole program: the events, which of them can happen, and the states that they lead to.
use mathlib.Core.Path.{subst}
use mfi_wrapper.Prelude.{
  ℕ, ◌+◌, ◌^◌, ◌<◌, ◌≡◌, ◌≢◌, refl, sym, ap, ◌∙◌, inl, inr, Bool, List, [], Option, none, some,
  Option-cases, unsome, none_not, ◌>>=◌, arith,
}
use mfi_wrapper.Prelude.Int.{ℤ}
use mfi_wrapper.Backend.Registry.{controller}
use mfi_wrapper.HidPad.Float.{FloatOps, FloatLaws}
use mfi_wrapper.HidPad.WiiUPro.{Calibrations}
use mfi_wrapper.Frontend.Controller.{Controller}
use mfi_wrapper.Frontend.Manager.Laws.{handles_of}
use mfi_wrapper.System.{
  Device, System, device_attached, device_report, device_removed, deliver_to_frontend,
  deliver_to_backend, application_sets_index, boot,
}
use mfi_wrapper.System.Memory.{lookup}
use mfi_wrapper.System.Room.{HasRoom, written, written-HasRoom, written_lem}
use mfi_wrapper.System.Queue.{follow_all, count}
use mfi_wrapper.System.Invariant.{presence, IsSystem, boot-IsSystem}
use mfi_wrapper.System.Attach.{attached_step}
use mfi_wrapper.System.Remove.{removed_step}
use mfi_wrapper.System.Methods.{report_step, backend_step}
use mfi_wrapper.System.Messages.{Steps, frontend_step, application_step}

-- What can happen: IOKit's three callbacks, a turn of either side's socket, and a call of the
-- application.
pub data Event : Type 0 where
  attached : ℕ → Calibrations → List ℕ → Event
  reported : ℕ → List ℕ → Event
  removed : ℕ → Event
  frontend_turn backend_turn : Event
  index_set : ℕ → ℤ → Event

module _ (F : FloatOps) (ios : Bool) (room : ℕ) where
  open F use {Float}

  -- What an event does when the sockets take all that is written.
  abbrev pub handled : Event → System Float → Option (System Float)
  handled (attached id garbage name) s = device_attached F ios id garbage name s
  handled (reported id report) s = device_report F id report s
  handled (removed id) s = device_removed F id s
  handled frontend_turn s = deliver_to_frontend F s
  handled backend_turn s = deliver_to_backend F s
  handled (index_set handle i) s = some (application_sets_index F handle i s)

  -- A step ends where a socket, whose buffer holds `room` bytes, does not take a packet whole: the senders do
  -- not look at what `write` returns, and what follows such a write is not modelled.
  abbrev pub step : Event → System Float → Option (System Float)
  step e s = handled e s >>= written room

  -- `new` gives an address where no object is, while fewer than 2^32 - 2 controllers were attached; IOKit
  -- reports for devices that it has not removed; the application has controllers of the frontend.
  abbrev Possible : Event → System Float → Type 0
  Possible (attached id garbage name) s =
      (lookup id s.connections ≡ none) × (s.backend.next_handle + 1 < 2 ^ 32)
  Possible (reported id report) s = lookup id s.connections ≢ none
  Possible (removed id) s = lookup id s.connections ≢ none
  Possible frontend_turn s = Unit {0}
  Possible backend_turn s = Unit {0}
  Possible (index_set handle i) s = (handle ≢ 0) × (handle < 2 ^ 32)

  -- The sockets have room for what the event writes.
  abbrev HasRoomFor : Event → System Float → Type 0
  HasRoomFor e s = (s' : System Float) → handled e s ≡ some s' → HasRoom room s'

  abbrev pub Enabled : Event → System Float → Type 0
  Enabled e s = Possible e s × HasRoomFor e s

  pub data Reachable : System Float → Type 0 where
    start : (buffer : List ℕ) → Reachable (boot buffer)
    next :
        (e : Event) (s s' : System Float)
        → Reachable s
        → Enabled e s
        → step e s ≡ some s'
        → Reachable s'

  -- A step is an event that is handled with room for what it writes.
  pub step-handled :
      (e : Event) (s s' : System Float)
      → step e s ≡ some s'
      → (handled e s ≡ some s') × HasRoom room s'
  step-handled e s s' steps = elim (Option-cases (handled e s)) [
    | inl fails ↦ absurd (none_not (rw fails at steps))
    | inr (t, works) ↦
        let (same, fits) = written-HasRoom room t s' (rw works at steps) in
        (works ∙ ap some same, fits)
  ]

  pub handled-step :
      (e : Event) (s s' : System Float)
      → handled e s ≡ some s'
      → HasRoom room s'
      → step e s ≡ some s'
  handled-step e s s' works fits = rw works (written_lem room s' fits)

  -- What waits has found room.
  pub Reachable-HasRoom : (s : System Float) → Reachable s → HasRoom room s
  unfolding boot
  Reachable-HasRoom _ (start buffer) = (omega arith, omega arith)
  Reachable-HasRoom _ (next e s s' before enabled steps) = (step-handled e s s' steps).1

  module _ (L : FloatLaws F) where
    live :
        (id : ℕ) (s : System Float)
        → lookup id s.connections ≢ none
        → (dev : Device Float) × (lookup id s.connections ≡ some dev)
    live id s h = elim (Option-cases (lookup id s.connections)) [
      | inl missing ↦ absurd (h missing)
      | inr found ↦ found
    ]

    Possible-Steps :
        (e : Event) (s : System Float) → Possible e s → IsSystem F L s → Steps F L (handled e s)
    Possible-Steps (attached id garbage name) s (free, room) h =
        attached_step F L ios id garbage name s free room h
    Possible-Steps (reported id report) s there h =
        let (dev, found) = live id s there in report_step F L id report s dev found h
    Possible-Steps (removed id) s there h =
        let (dev, found) = live id s there in removed_step F L id s dev found h
    Possible-Steps frontend_turn s _ h = frontend_step F L s h
    Possible-Steps backend_turn s _ h = backend_step F L s h
    Possible-Steps (index_set handle i) s (named, _) h =
        (application_sets_index F handle i s, refl, application_step F L handle i s named h)

    pub Reachable-IsSystem : (s : System Float) → Reachable s → IsSystem F L s
    Reachable-IsSystem _ (start buffer) = boot-IsSystem F L buffer
    Reachable-IsSystem _ (next e s s' before enabled steps) =
        let (t, same, good) = Possible-Steps e s enabled.0 (Reachable-IsSystem s before) in
        subst (IsSystem F L) (unsome (sym same ∙ (step-handled e s s' steps).0)) good

    -- Under the laws assumed of `float`, and for sockets whose buffers hold any fixed number of
    -- bytes: from every state of the whole program that steps lead to, each event that can happen (a
    -- device attached at an address where no object is, while fewer than 2^32 - 2 controllers were
    -- attached; a report for or the removal of a live device; a turn of either side's socket; a
    -- player index set on a controller with a 32-bit handle other than 0), if the buffers have room
    -- for the packets that wait behind it, is handled: no assertion fails, no pointer to a deleted
    -- object is followed, the frontend raises no exception, and every packet is written whole. The
    -- state that it leaves is one that steps lead to.
    pub no_step_fails :
        (e : Event) (s : System Float)
        → Reachable s
        → Enabled e s
        → (s' : System Float) × (step e s ≡ some s') × Reachable s'
    no_step_fails e s before enabled =
        let (s', works, _) = Possible-Steps e s enabled.0 (Reachable-IsSystem s before) in
        let steps = handled-step e s s' works (enabled.1 s' works) in
        (s', steps, next e s s' before enabled steps)

    -- Under the laws assumed of `float`: in every state that steps lead to, a pointer that the
    -- registry holds for a handle is to a live object, and that object has the handle.
    pub pointers_are_live :
        (s : System Float) (handle id : ℕ)
        → Reachable s
        → controller s.backend handle ≡ some id
        → (dev : Device Float) × (lookup id s.connections ≡ some dev) × (dev.handle ≡ handle)
    pointers_are_live s handle id before registered =
        (Reachable-IsSystem s before).linked.pointed handle id registered

    -- The frontend shows the registry.
    abbrev pub Shows : System Float → Type 0
    Shows s =
        (cs : List Controller) × (s.frontend.controllers ≡ some cs)
        × ((k : ℕ) → count k (handles_of cs) ≡ presence (controller s.backend k))

    pub idle-Shows : (s : System Float) → Reachable s → s.to_frontend ≡ [] → Shows s
    unfolding follow_all
    idle-Shows s before idle =
        let shown = (Reachable-IsSystem s before).shown in
        let same : handles_of shown.listed ≡ shown.at_end = unsome (rw idle at shown.replays) in
        (shown.listed, ap (λ f. f.controllers) shown.array, λ k. ap (count k) same ∙ shown.counts k)
