-- ===== src/Witnesses/Reports.antt =====
-- A report of the DualShock 4 that is attached.
use mathlib.Core.Path.{subst}
use mfi_wrapper.Prelude.{
  ◌≡◌, ℕ, List, [], ◌∷◌, ◌++◌, some, replicate, refl, length, arith, has_bits, true, false,
}
use mfi_wrapper.Prelude.Int.{ℤ, wrap, ◌-ℤ◌}
use mfi_wrapper.HidPad.Axis.{axis_value, calculate_axis, is_ordered}
use mfi_wrapper.Text.{contains, starts_with}
use mfi_wrapper.Protocol.{InputState, a_button}
use mfi_wrapper.Backend.Defs as Backend
use mfi_wrapper.Backend.Defs.{attach_controller, assign, find}
use mfi_wrapper.Backend.Registry.{controller}
use mfi_wrapper.HidPad.Effect.{Effect, set_report, send_controller_state, Outcome}
use mfi_wrapper.HidPad.DualShock4 as DualShock4
use mfi_wrapper.HidPad.DualShock4.Laws.{input, buffer_after, packet_result, handle_packet_lem}
use mfi_wrapper.HidPad.Interface as Interface
use mfi_wrapper.HidPad.Interface.{Pad, dual_shock4, connect_class}
use mfi_wrapper.HidManager.{stored, packet_size, blank_data}
use mfi_wrapper.Protocol.Wire.{state_words}
use mfi_wrapper.Frontend.Value.{is_nan}
use mfi_wrapper.Frontend.Element.Walk.{NoNan}
use mfi_wrapper.Frontend.Gamepad.Laws.{field}
use mfi_wrapper.Frontend.Manager.Arrays.{Sees}
use mfi_wrapper.System.{
  Device, System, state_bits, boot, device_attached, device_report, after_method, perform,
  perform_one,
}
use mfi_wrapper.System.Memory.{lookup, put}
use mfi_wrapper.System.Safety.{reported, step}
use mfi_wrapper.System.Room.{HasRoom, HasAnswerRoom}
use mfi_wrapper.System.Drain.{turns}
use mfi_wrapper.System.Reports.{report_is_shown}
use mfi_wrapper.Witnesses.Fixed.{thousandths, thousandths_laws}
use mfi_wrapper.Witnesses.Program.{room, or_booted, with_pad, with_pad-Reachable}

-- The sticks at rest, and the cross button.
abbrev cross_report : List ℕ
cross_report = 0 ∷ 0xC0 ∷ 0 ∷ 128 ∷ 128 ∷ 128 ∷ 128 ∷ 0x28 ∷ replicate 70 0

abbrev fresh_pad : DualShock4.DualShock4
fresh_pad = record { pause_held = true; player_index = 255; need_set_report = true }

abbrev fresh_device : Device ℤ
fresh_device = record {
  class = dual_shock4;
  pad = Interface.ds4 fresh_pad;
  handle = 1;
  data_bytes = blank_data;
}

abbrev bytes : List ℕ
bytes = stored blank_data cross_report

abbrev pressed_input : InputState ℤ
pressed_input = input thousandths bytes

abbrev handled : Outcome (List ℕ × Pad ℤ) ℤ
handled =
    Interface.with_state
      (λ t. (buffer_after fresh_pad DualShock4.initial_report_buffer, Interface.ds4 t))
      (packet_result thousandths DualShock4.initial_report_buffer fresh_pad bytes
        (packet_size cross_report)).outcome

returned :
    Interface.handle_packet thousandths DualShock4.initial_report_buffer
      (Interface.ds4 fresh_pad)
      bytes
      (packet_size cross_report)
    ≡ some handled
unfolding Interface.handle_packet
returned = rw (
    handle_packet_lem thousandths DualShock4.initial_report_buffer fresh_pad bytes
      (packet_size cross_report))

abbrev light_bar : List (Effect ℤ)
light_bar = set_report false 0x11 (buffer_after fresh_pad DualShock4.initial_report_buffer) ∷ []

sent_last : handled.effects ≡ light_bar ++ send_controller_state pressed_input ∷ []
unfolding stored packet_size DualShock4.is_ignored
sent_last = refl

pressed_plain : NoNan (state_words (state_bits thousandths pressed_input))
unfolding stored state_bits DualShock4.input_of DualShock4.dpad_state is_nan wrap axis_value
    has_bits ◌-ℤ◌
pressed_plain = ground arith

report_is_shown_example :
    (s' t : System ℤ) × (step thousandths false room (reported 7 cross_report) with_pad ≡ some s')
    × (turns thousandths false room (length s'.to_frontend) s' ≡ some t)
    × Sees t.frontend 1 a_button (field (state_bits thousandths pressed_input) a_button)
unfolding controller find boot lookup device_attached connect_class contains starts_with
    Interface.open_pad put perform DualShock4.open_pad perform_one attach_controller assign
    device_report after_method Interface.handle_packet DualShock4.handle_packet
    DualShock4.handle_input DualShock4.read_input stored packet_size DualShock4.is_ignored
    calculate_axis is_ordered Backend.send_controller_state
report_is_shown_example =
    report_is_shown thousandths false room thousandths_laws 1 7 cross_report pressed_input a_button
      light_bar with_pad fresh_device handled with_pad-Reachable refl refl returned sent_last
      pressed_plain
      (λ u e.
        subst
          (λ o.
            HasRoom room (or_booted o)
            × HasAnswerRoom room (length (or_booted o).to_frontend) (or_booted o))
          e ((omega arith, omega arith), omega arith))
