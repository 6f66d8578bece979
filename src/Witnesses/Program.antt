-- ===== src/Witnesses/Program.antt =====
-- A DualShock 4 that is attached.
use mathlib.Core.Path.{subst}
use mfi_wrapper.Prelude.{◌≡◌, ℕ, refl, sym, none_not, false, Option, none, some, arith}
use mfi_wrapper.Prelude.Int.{ℤ, pos}
use mfi_wrapper.Text.{codes, contains, starts_with}
use mfi_wrapper.Backend.Defs.{attach_controller, detach_controller, assign, find, erase}
use mfi_wrapper.Backend.Registry.{controller}
use mfi_wrapper.HidPad.Axis.{Calibration}
use mfi_wrapper.HidPad.DualShock4
use mfi_wrapper.HidPad.DualShock4.{initial_report_buffer}
use mfi_wrapper.HidPad.WiiUPro.{Calibrations}
use mfi_wrapper.HidPad.Interface.{PadClass, dual_shock4, wii_mote, connect_class}
use mfi_wrapper.HidPad.Interface as Interface
use mfi_wrapper.System.{Device, System, boot, device_attached, device_removed, perform, perform_one}
use mfi_wrapper.System.Memory.{lookup, put}
use mfi_wrapper.System.Room.{HasRoom}
use mfi_wrapper.System.Safety.{
  Event, attached, removed, step, Reachable, start, next, no_step_fails, pointers_are_live,
}
use mfi_wrapper.System.Drain.{Drained, frontend_catches_up}
use mfi_wrapper.Witnesses.Fixed.{thousandths, thousandths_laws}

abbrev zeros : Calibration
zeros = record { c0 = pos 0; c1 = pos 0; c2 = pos 0; c3 = pos 0 }

abbrev garbage : Calibrations
garbage = record { left_x = zeros; left_y = zeros; right_x = zeros; right_y = zeros }

abbrev booted : System ℤ
booted = boot initial_report_buffer

abbrev plugged : Event
plugged = attached 7 garbage (codes "Wireless Controller")

-- The buffers of the sockets.
abbrev pub room : ℕ
room = 8192

abbrev pub or_booted : Option (System ℤ) → System ℤ
or_booted none = booted
or_booted (some s) = s

abbrev pub with_pad : System ℤ
with_pad = or_booted (step thousandths false room plugged booted)

pub with_pad-Reachable : Reachable thousandths false room with_pad
unfolding boot lookup device_attached connect_class contains starts_with Interface.open_pad put
    perform DualShock4.open_pad perform_one attach_controller assign
with_pad-Reachable =
    next plugged booted with_pad (start initial_report_buffer)
      (
        (refl, omega arith),
        λ s' e. subst (λ o. HasRoom room (or_booted o)) e (omega arith, omega arith),
      )
      refl

no_step_fails_example :
    (s' : System ℤ) × (step thousandths false room (removed 7) with_pad ≡ some s')
    × Reachable thousandths false room s'
unfolding boot lookup device_attached connect_class contains starts_with Interface.open_pad put
    perform DualShock4.open_pad perform_one attach_controller assign device_removed
    detach_controller find erase
no_step_fails_example =
    no_step_fails thousandths false room thousandths_laws (removed 7) with_pad with_pad-Reachable (
      (λ e. none_not (sym e)),
      λ s' e. subst (λ o. HasRoom room (or_booted o)) e (omega arith, omega arith),
    )

pointers_are_live_example :
    (dev : Device ℤ) × (lookup 7 with_pad.connections ≡ some dev) × (dev.handle ≡ 1)
unfolding controller find boot lookup device_attached connect_class contains starts_with
    Interface.open_pad put perform DualShock4.open_pad perform_one attach_controller assign
pointers_are_live_example =
    pointers_are_live thousandths false room thousandths_laws with_pad 1 7 with_pad-Reachable refl

frontend_catches_up_example : Drained thousandths false room thousandths_laws 1 with_pad
unfolding boot device_attached connect_class contains starts_with Interface.open_pad perform
    DualShock4.open_pad perform_one attach_controller
frontend_catches_up_example =
    frontend_catches_up thousandths false room thousandths_laws 1 with_pad with_pad-Reachable refl
      (omega arith)
