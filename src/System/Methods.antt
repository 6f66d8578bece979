-- ===== src/System/Methods.antt =====
-- The steps that call a method of a controller: a report, and a player's index.
use mfi_wrapper.Prelude.{
  ℕ, ◌≡◌, ◌≢◌, refl, ap, ◌∙◌, inl, inr, List, ◌∷◌, Option, none, some, arith, Option-cases,
  List-cases, unsome, none_not,
}
use mfi_wrapper.Protocol.{
  DataPacket, connect, disconnect, input_state, set_player_index, pause_pressed,
}
use mfi_wrapper.Backend.Defs as Backend
use mfi_wrapper.Backend.Defs.{Backend, find, assign, handle_set_player_index}
use mfi_wrapper.Backend.Registry.{controller, find-assign}
use mfi_wrapper.Backend.Lifecycle.{dispatch-keeps}
use mfi_wrapper.HidPad.Float.{FloatOps, FloatLaws}
use mfi_wrapper.HidPad.Interface as Interface
use mfi_wrapper.HidPad.Interface.{signed}
use mfi_wrapper.HidPad.Interface.Laws.{handle_packet-Serves, set_player_index-IsPad}
use mfi_wrapper.HidManager.{stored, packet_size}
use mfi_wrapper.System.{
  Device, System, device_report, tell, backend_receives, deliver_to_backend, after_method,
}
use mfi_wrapper.System.Memory.{lookup}
use mfi_wrapper.System.Queue.{IsIndex}
use mfi_wrapper.System.Invariant.{IsSystem}
use mfi_wrapper.System.Links.{same-IsShown, same-IsLinked, method_keeps}
use mfi_wrapper.System.Messages.{Steps}

-- The registry after a player's index.
pub next-set_player_index :
    (b : Backend) (handle i : ℕ)
    → (handle_set_player_index b handle i).0.next_handle ≡ b.next_handle
unfolding handle_set_player_index
next-set_player_index b handle i = ground arith

unnamed-set_player_index :
    (b : Backend) (handle i : ℕ)
    → handle ≢ 0
    → find 0 b.devices ≡ none
    → find 0 (handle_set_player_index b handle i).0.devices ≡ none
unfolding handle_set_player_index
unnamed-set_player_index b handle i h e = ground (arith, h, e, find-assign handle 0 none b.devices)

-- Whom it is for.
told-controller :
    (b : Backend) (handle i id n : ℕ)
    → (handle_set_player_index b handle i).1 ≡ some (id, n)
    → controller b handle ≡ some id
unfolding handle_set_player_index controller
told-controller b handle i id n e = elim (Option-cases (find handle b.devices)) [
  | inl missing ↦ absurd (none_not (rw (handle_set_player_index, missing) at e))
  | inr (p, found) ↦ elim (Option-cases p) [
    | inl null ↦ absurd (none_not (rw (handle_set_player_index, found, null) at e))
    | inr (pad, there) ↦
        let same = unsome (rw (handle_set_player_index, found, there) at e) in
        rw (controller, found, there) (ap (λ x. some x.0) same)
  ]
]

module _ (F : FloatOps) (L : FloatLaws F) where
  open F use {Float}

  pub report_step :
      (id : ℕ) (report : List ℕ) (s : System Float) (dev : Device Float)
      → lookup id s.connections ≡ some dev
      → IsSystem F L s
      → Steps F L (device_report F id report s)
  unfolding device_report
  report_step id report s dev there h =
      let bytes = stored dev.data_bytes report in
      let size = packet_size report in
      let (r, returns, good, quiet) =
        handle_packet-Serves F L s.report_buffer dev.pad bytes size (h.linked.pads id dev there) in
      (
        after_method F id dev (record { state = r.state.1; effects = r.effects })
            (Interface.data_after F dev.pad bytes size) r.state.0 s,
        rw (there, returns),
        method_keeps F L id dev _ _ _ s there good quiet h,
      )

  -- The pointer that the registry gives is to a live object.
  tell_step :
      (target : Option (ℕ × ℕ)) (s : System Float)
      → ((id n : ℕ) → target ≡ some (id, n) → (h : ℕ) × (controller s.backend h ≡ some id))
      → IsSystem F L s
      → Steps F L (tell F target s)
  unfolding tell
  tell_step none s known h = (s, refl, h)
  tell_step (some (id, n)) s known h =
      let (handle, registered) = known id n refl in
      let (dev, there, _) = h.linked.pointed handle id registered in
      let (good, quiet) =
        set_player_index-IsPad F L dev.pad (signed n) (h.linked.pads id dev there) in
      (
        after_method F id dev (Interface.set_player_index F dev.pad (signed n)) dev.data_bytes
            s.report_buffer s,
        rw there,
        method_keeps F L id dev _ _ _ s there good quiet h,
      )

  index_step :
      (handle i : ℕ) (rest : List DataPacket) (s : System Float)
      → handle ≢ 0
      → IsSystem F L s
      → s.to_backend ≡ set_player_index handle i ∷ rest
      → Steps F L (backend_receives F (set_player_index handle i) rest s)
  unfolding backend_receives Backend.dispatch
  index_step handle i rest s nonzero h waits =
      let b' = (handle_set_player_index s.backend handle i).0 in
      let (same, registry) =
        dispatch-keeps s.backend (some (set_player_index handle i)) h.linked.registry in
      tell_step (handle_set_player_index s.backend handle i).1
        (record s { backend = b'; to_backend = rest })
        (λ id n e. (handle, same handle ∙ told-controller s.backend handle i id n e))
        (record {
          linked =
              same-IsLinked F L s.backend b' s.connections same registry
                (next-set_player_index s.backend handle i)
                (unnamed-set_player_index s.backend handle i nonzero h.linked.unnamed) h.linked;
          shown = same-IsShown s.backend b' s.to_frontend s.frontend same h.shown;
          indices = (rw waits at h.indices).1;
        })

  receives_index :
      (p : DataPacket) (rest : List DataPacket) (s : System Float)
      → IsIndex p
      → IsSystem F L s
      → s.to_backend ≡ p ∷ rest
      → Steps F L (backend_receives F p rest s)
  receives_index (connect handle p) rest s i h waits = absurd i
  receives_index (disconnect handle) rest s i h waits = absurd i
  receives_index (input_state handle x) rest s i h waits = absurd i
  receives_index (set_player_index handle n) rest s i h waits = index_step handle n rest s i h waits
  receives_index (pause_pressed handle) rest s i h waits = absurd i

  pub backend_step : (s : System Float) → IsSystem F L s → Steps F L (deliver_to_backend F s)
  unfolding deliver_to_backend
  backend_step s h = elim (List-cases s.to_backend) [
    | inl empty ↦ (s, simp (deliver_to_backend, empty), h)
    | inr (p, rest, waits) ↦
        let (s', steps, good) = receives_index p rest s (rw waits at h.indices).0 h waits in
        let turn : deliver_to_backend F s ≡ backend_receives F p rest s =
          simp (deliver_to_backend, waits) in
        (s', turn ∙ steps, good)
  ]
