-- ===== src/Witnesses/Startup.antt =====
-- A start of the program.
use mfi_wrapper.Prelude.{ℕ, ◌≡◌, refl, sym, none_not, true, Option, none, some, []}
use mfi_wrapper.Prelude.Int.{ℤ, pos}
use mfi_wrapper.Connection.Endpoint.{application, manager, open_endpoint}
use mfi_wrapper.HidManager.Matching.{start_up}
use mfi_wrapper.System.{boot}
use mfi_wrapper.Process.{
  Answers, Host, Process, initial, startup, hack_start, manager_moves, advance,
}
use mfi_wrapper.Process.Order.{
  starts, moves, step, IsWorking, fresh_end, the_manager, Reachable, at_start, next, Started,
  no_start_faults, loop_finds_boot,
}

abbrev host : Host
host = record {
  usages = record { generic_desktop = 1; joystick = 4; game_pad = 5 };
  manager_answers = record { is_made = true; opens = true };
  opening = λ d. record { sets_non_blocking = true; gives_socket = true };
}

host-IsWorking : IsWorking host
host-IsWorking = record { made = refl; non_blocking = λ d. refl; has_socket = λ d. refl }

abbrev answers : Answers
answers = record { pair = some (7, 8); thread = 1 }

abbrev or_initial : Option Process → Process
or_initial none = initial
or_initial (some p) = p

-- The process behind Startup, the new connection, HIDManager's StartUp, and the run loop.
abbrev asked : Process
asked = or_initial (startup host answers initial)

abbrev connected : Process
connected = or_initial (manager_moves host asked)

abbrev looping : Process
looping = or_initial (manager_moves host connected)

abbrev stopped : Process
stopped = or_initial (manager_moves host looping)

looping-Reachable : Reachable host looping
unfolding startup hack_start manager_moves advance open_endpoint start_up
looping-Reachable =
    next moves connected looping
      (next moves asked connected
        (next (starts answers) initial asked at_start (λ e. none_not (sym e)) refl) tt refl)
      tt refl

stopped-Reachable : Reachable host stopped
unfolding startup hack_start manager_moves advance open_endpoint start_up
stopped-Reachable = next moves looping stopped looping-Reachable tt refl

-- The part that calls ShutDown.
no_start_faults_example : (p : Process) × (step host moves stopped ≡ some p) × Reachable host p
no_start_faults_example = no_start_faults host host-IsWorking moves stopped stopped-Reachable tt

loop_finds_boot_example :
    (x y : ℕ) × Started host x y looping
    × (looping.frontend_end ≡ some (fresh_end application (pos y)))
    × (looping.backend_end ≡ some (fresh_end manager (pos x)))
    × (looping.hid_manager ≡ the_manager host)
    × (looping.frontend ≡ (boot {Float = ℤ} []).frontend)
unfolding startup hack_start manager_moves advance open_endpoint start_up
loop_finds_boot_example = loop_finds_boot host host-IsWorking ℤ [] looping looping-Reachable refl
