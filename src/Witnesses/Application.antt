-- ===== src/Witnesses/Application.antt =====
-- An application with two controllers.
use mfi_wrapper.Frontend.Controller.Laws.{repeat_is_silent}
use mfi_wrapper.Prelude.{ℕ, ◌≡◌, refl, true, List, [], ◌∷◌, none, some, arith}
use mfi_wrapper.Text.{codes}
use mfi_wrapper.Protocol.{left_thumbstick, ConnectPacket, InputState, disconnect}
use mfi_wrapper.Frontend.Value.{one, minus_one, is_nan}
use mfi_wrapper.Frontend.Element.Walk.{same_values}
use mfi_wrapper.Frontend.Controller.{Controller, controller_for_handle, tweak_update_buttons}
use mfi_wrapper.Frontend.Controller.Laws.{IsController, controller_for_handle-IsController}
use mfi_wrapper.Frontend.Gamepad.{extended_gamepad_for_controller, property, shown_at}
use mfi_wrapper.Frontend.Gamepad.Laws.{properties_show_packet}
use mfi_wrapper.Frontend.Manager.{Frontend, initial, startup, dispatch}
use mfi_wrapper.Frontend.Keyboard.{neutral}
use mfi_wrapper.Frontend.Manager.Laws.{follow, without, with_array, dispatch_raises}

abbrev packet : ConnectPacket
packet = record { vendor_name = codes "Pad"; present_controls = 0x7FFF; analog_controls = 0 }

abbrev first : Controller
first = controller_for_handle 1 packet

abbrev two : List Controller
two = first ∷ controller_for_handle 2 packet ∷ []

abbrev running : Frontend
running = startup initial

-- The stick to the left, and A.
abbrev input : InputState ℕ
input = record neutral { left_stick_x = minus_one; a = one }

dispatch_raises_example : dispatch (with_array running two) (some (disconnect 3)) ≡ none
unfolding follow without controller_for_handle
dispatch_raises_example = dispatch_raises running two (disconnect 3) refl

first-IsController : IsController first
first-IsController = controller_for_handle-IsController 1 packet

-- The left stick.
properties_show_packet_example :
    same_values
      (shown_at
        (tweak_update_buttons first input).0.tweak_elements
        (property extended_gamepad_for_controller left_thumbstick))
      (minus_one ∷ 0 ∷ [])
    ≡ true
unfolding is_nan
properties_show_packet_example =
    properties_show_packet first input left_thumbstick first-IsController (ground arith)

repeat_is_silent_example :
    let after = (tweak_update_buttons first input).0 in
    tweak_update_buttons after input ≡ (after, [])
unfolding is_nan
repeat_is_silent_example = repeat_is_silent first input first-IsController (ground arith)
