-- ===== src/Backend/Lifecycle.antt =====
-- What attaching, detaching and the frontend's packets do to the registry.
use mathlib.Core.Option
use mfi_wrapper.Prelude.{
  ℕ, ◌+◌, ◌^◌, ◌<◌, ◌≡◌, ◌≢◌, refl, ap, ◌∙◌, List, [], ◌∷◌, ◌++◌, Option, none, some, arith, ◌==◌,
  if◌then◌else◌,
}
use mfi_wrapper.Protocol.{
  DataPacket, connect, disconnect, input_state, set_player_index, pause_pressed,
}
use mfi_wrapper.Protocol.Wire.{decode}
use mfi_wrapper.Connection.Defs.{send}
use mfi_wrapper.Connection.RoundTrip.{decode-send}
use mfi_wrapper.Backend.Defs.{
  find, Backend, Description, connect_packet, attach_controller, detach_controller,
  handle_set_player_index, dispatch, handle_packet,
}
use mfi_wrapper.Backend.Registry.{
  Distinct, controller, IsRegistry, find-assign, find-erase, assign-Distinct, erase-Distinct,
}

controller-attach :
    (b : Backend) (pad : ℕ) (d : Description) (k : ℕ)
    → controller (attach_controller b pad d).backend k
      ≡ (if b.next_handle == k then some pad else controller b k)
unfolding controller attach_controller
controller-attach b pad d k = ground (arith, find-assign b.next_handle k (some pad) b.devices)

-- In a well-formed registry, while a handle is left: the handle that AttachController gives stood
-- for no controller before and stands for this one afterwards, every other handle stands for what it
-- stood for, the frontend is sent one connect packet with that handle, and the registry stays well
-- formed.
pub attach_adds_controller :
    (b : Backend) (pad : ℕ) (d : Description)
    → IsRegistry b
    → b.next_handle + 1 < 2 ^ 32
    → let r = attach_controller b pad d in
      (controller b r.handle ≡ none)
      × ((k : ℕ) → controller r.backend k ≡ (if r.handle == k then some pad else controller b k))
      × (r.sent ≡ connect r.handle (connect_packet d) ∷ [])
      × IsRegistry r.backend
unfolding attach_controller
attach_adds_controller b pad d reg room = (
  reg.given_out b.next_handle (omega arith),
  controller-attach b pad d,
  refl,
  record {
    distinct = assign-Distinct b.next_handle (some pad) b.devices reg.distinct;
    given_out = λ h le. controller-attach b pad d h ∙ ground (arith, reg.given_out h);
  },
)

controller-detach :
    (b : Backend) (handle k : ℕ)
    → Distinct b.devices
    → controller (detach_controller b handle).0 k ≡ (if handle == k then none else controller b k)
unfolding controller detach_controller
controller-detach b handle k d = ground (arith, find-erase handle k b.devices d)

detach-Distinct :
    (b : Backend) (handle : ℕ)
    → Distinct b.devices
    → Distinct (detach_controller b handle).0.devices
unfolding detach_controller
detach-Distinct b handle d = ground (arith, erase-Distinct handle b.devices d)

pub detach-next_handle :
    (b : Backend) (handle : ℕ) → (detach_controller b handle).0.next_handle ≡ b.next_handle
unfolding detach_controller
detach-next_handle b handle = ground arith

detach-sent :
    (b : Backend) (handle : ℕ)
    → controller b handle ≢ none
    → (detach_controller b handle).1 ≡ disconnect handle ∷ []
unfolding detach_controller controller
detach-sent b handle live = ground arith

-- In a well-formed registry, DetachController leaves its handle standing for no controller and every
-- other handle for what it stood for, keeps the next handle and the registry well formed, and, if
-- the handle stood for a controller, sends the frontend one disconnect packet with it.
pub detach_removes_controller :
    (b : Backend) (handle : ℕ)
    → IsRegistry b
    → let r = detach_controller b handle in
      ((k : ℕ) → controller r.0 k ≡ (if handle == k then none else controller b k))
      × (r.0.next_handle ≡ b.next_handle)
      × IsRegistry r.0
      × (controller b handle ≢ none → r.1 ≡ disconnect handle ∷ [])
detach_removes_controller b handle reg = (
  λ k. controller-detach b handle k reg.distinct,
  detach-next_handle b handle,
  record {
    distinct = detach-Distinct b handle reg.distinct;
    given_out = λ k le.
        controller-detach b handle k reg.distinct
        ∙ ground (arith, reg.given_out k, detach-next_handle b handle);
  },
  detach-sent b handle,
)

controller-set_player_index :
    (b : Backend) (handle i k : ℕ)
    → controller (handle_set_player_index b handle i).0 k ≡ controller b k
unfolding handle_set_player_index controller
controller-set_player_index b handle i k =
    ground (arith, find-assign handle k none b.devices, find_same)
  where
    find_same : handle ≡ k → find handle b.devices ≡ find k b.devices
    find_same = ap (λ h. find h b.devices)

set_player_index-IsRegistry :
    (b : Backend) (handle i : ℕ) → IsRegistry b → IsRegistry (handle_set_player_index b handle i).0
unfolding handle_set_player_index
set_player_index-IsRegistry b handle i reg = record {
  distinct = ground (arith, assign-Distinct handle none b.devices reg.distinct);
  given_out = λ k le. controller-set_player_index b handle i k ∙ ground (arith, reg.given_out k);
}

pub dispatch-keeps :
    (b : Backend) (p : Option DataPacket)
    → IsRegistry b
    → ((k : ℕ) → controller (dispatch b p).0 k ≡ controller b k) × IsRegistry (dispatch b p).0
unfolding dispatch
dispatch-keeps b none reg = (λ k. refl, reg)
dispatch-keeps b (some (connect handle p)) reg = (λ k. refl, reg)
dispatch-keeps b (some (disconnect handle)) reg = (λ k. refl, reg)
dispatch-keeps b (some (input_state handle s)) reg = (λ k. refl, reg)
dispatch-keeps b (some (set_player_index handle i)) reg =
    (controller-set_player_index b handle i, set_player_index-IsRegistry b handle i reg)
dispatch-keeps b (some (pause_pressed handle)) reg = (λ k. refl, reg)

-- In a well-formed registry a packet from the frontend, whatever its bytes, leaves every handle
-- standing for the controller that it stood for, and the registry well formed.
pub handle_packet_keeps :
    (b : Backend) (m : List ℕ)
    → IsRegistry b
    → ((k : ℕ) → controller (handle_packet b m).0 k ≡ controller b k)
      × IsRegistry (handle_packet b m).0
unfolding handle_packet
handle_packet_keeps b m reg = dispatch-keeps b (decode m) reg

told :
    (b : Backend) (handle i : ℕ)
    → (handle_set_player_index b handle i).1 ≡ Option.map (λ pad. (pad, i)) (controller b handle)
unfolding handle_set_player_index controller
told b handle i = ground arith

-- A player index for a 32-bit handle, as the frontend's sender writes it and with any bytes behind
-- it in the buffer, is passed by the backend's HandlePacket to the controller that the handle stands
-- for, and to no controller if it stands for none.
pub player_index_reaches :
    (b : Backend) (handle i : ℕ) (rest : List ℕ)
    → handle < 2 ^ 32
    → i < 2 ^ 32
    → (handle_packet b (send (set_player_index handle i) ++ rest)).1
      ≡ Option.map (λ pad. (pad, i)) (controller b handle)
unfolding handle_packet dispatch
player_index_reaches b handle i rest h hi =
    ap (λ p. (dispatch b p).1) (decode-send (set_player_index handle i) rest (h, hi))
    ∙ told b handle i

-- For a handle that is not in the registry, DetachController sends nothing; but after the frontend
-- has sent a player index for that handle it sends a disconnect packet, though no controller had the
-- handle.
pub unknown_handle_is_entered :
    (b : Backend) (handle i : ℕ)
    → find handle b.devices ≡ none
    → ((detach_controller b handle).1 ≡ [])
      × ((detach_controller (handle_set_player_index b handle i).0 handle).1
          ≡ disconnect handle ∷ [])
unfolding detach_controller handle_set_player_index
unknown_handle_is_entered b handle i missing =
    (ground (arith, missing), ground (arith, missing, find-assign handle handle none b.devices))
