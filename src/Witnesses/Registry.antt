-- ===== src/Witnesses/Registry.antt =====
-- Controllers that come and go.
use mathlib.Core.Option
use mfi_wrapper.Prelude.{ℕ, ◌≡◌, ◌≢◌, refl, [], ◌∷◌, ◌++◌, none, some, arith, ◌==◌, if◌then◌else◌}
use mfi_wrapper.Protocol.{connect, disconnect, set_player_index}
use mfi_wrapper.Connection.Defs.{send}
use mfi_wrapper.Backend.Defs.{
  Backend, initial, Description, connect_packet, attach_controller, detach_controller,
  handle_set_player_index, handle_packet, find,
}
use mfi_wrapper.Backend.Registry.{controller, IsRegistry}
use mfi_wrapper.Backend.Lifecycle.{
  attach_adds_controller, detach_removes_controller, player_index_reaches,
  unknown_handle_is_entered,
}

initial-IsRegistry : IsRegistry initial
unfolding controller find
initial-IsRegistry = record { distinct = tt; given_out = λ h le. refl }

abbrev described : Description
described = record {
  vendor_name = 80 ∷ 83 ∷ 51 ∷ [];
  present_controls = 0x7FFF;
  analog_controls = 0x7FF;
}

-- The controller numbered 70 has the handle 1.
abbrev one_pad : Backend
one_pad = record { next_handle = 2; devices = (1, some 70) ∷ [] }

one_pad-IsRegistry : IsRegistry one_pad
unfolding controller find
one_pad-IsRegistry = record { distinct = (refl, tt); given_out = λ h le. ground arith }

attach_adds_controller_example :
    let r = attach_controller one_pad 71 described in
    (controller one_pad r.handle ≡ none)
    × ((k : ℕ) → controller r.backend k ≡ (if r.handle == k then some 71 else controller one_pad k))
    × (r.sent ≡ connect r.handle (connect_packet described) ∷ [])
    × IsRegistry r.backend
attach_adds_controller_example =
    attach_adds_controller one_pad 71 described one_pad-IsRegistry (omega arith)

detach_removes_controller_example :
    let r = detach_controller one_pad 1 in
    ((k : ℕ) → controller r.0 k ≡ (if 1 == k then none else controller one_pad k))
    × (r.0.next_handle ≡ one_pad.next_handle)
    × IsRegistry r.0
    × (controller one_pad 1 ≢ none → r.1 ≡ disconnect 1 ∷ [])
detach_removes_controller_example = detach_removes_controller one_pad 1 one_pad-IsRegistry

player_index_reaches_example :
    (handle_packet one_pad (send (set_player_index 1 3) ++ 0 ∷ [])).1
    ≡ Option.map (λ pad. (pad, 3)) (controller one_pad 1)
player_index_reaches_example = player_index_reaches one_pad 1 3 (0 ∷ []) (omega arith) (omega arith)

unknown_handle_is_entered_example :
    ((detach_controller one_pad 0).1 ≡ [])
    × ((detach_controller (handle_set_player_index one_pad 0 2).0 0).1 ≡ disconnect 0 ∷ [])
unfolding find
unknown_handle_is_entered_example = unknown_handle_is_entered one_pad 0 2 refl

-- A run: the first two controllers get the handles 1 and 2.
second_handle :
    (attach_controller (attach_controller initial 70 described).backend 71 described).handle ≡ 2
unfolding attach_controller
second_handle = refl
