-- ===== src/Process.antt =====
-- How the program starts: Startup of src/frontend/frontend.mm on the application's thread, HACKStart of
-- src/backend/backend.cpp, and the ManagerThread that it creates. The system's calls are given by their
-- answers.
pub mod Order
use mfi_wrapper.Prelude.{
  ℕ, suc, ◌+◌, Bool, true, false, List, [], ◌∷◌, ◌++◌, Option, none, some, ◌==◌, if◌then◌else◌,
  ◌>>=◌,
}
use mfi_wrapper.Prelude.Int.{ℤ, pos, negsuc}
use mfi_wrapper.Connection.Endpoint.{Endpoint, Opening, Thread, application, manager, open_endpoint}
use mfi_wrapper.HidManager.Matching.{Usages, ManagerAnswers, ManagerRef, null, start_up, shut_down}
use mfi_wrapper.Frontend.Manager as Manager
use mfi_wrapper.Frontend.Manager.{Frontend}

-- Where ManagerThread stands: before its first call, behind the new connection, behind StartUp in the
-- run loop, behind the run loop, and at its end.
pub data Point : Type 0 where
  created connected running left finished : Point

-- What the system answers to one call of HACKStart: the pair of sockets, if there is one, and what
-- pthread_create stores, 0 if it fails.
pub record Answers : Type 0 where
  pub pair : Option (ℕ × ℕ)
  pub thread : ℕ

-- What the system answers wherever it is asked: the constants of IOKit, its answers to StartUp, and those to
-- a Connection on a descriptor.
pub record Host : Type 0 where
  pub usages : Usages
  pub manager_answers : ManagerAnswers
  pub opening : ℤ → Opening

pub record Process : Type 0 where
  -- The globals of backend.cpp: `thread`, `sockets` and `connection`.
  pub thread : ℕ
  pub sockets : ℤ × ℤ
  pub backend_end : Option Endpoint
  -- `g_hid_manager`
  pub hid_manager : ManagerRef
  -- `connection` of frontend.mm, and the rest of its globals.
  pub frontend_end : Option Endpoint
  pub frontend : Frontend
  -- The manager thread, and the answers of the system so far.
  pub point : Option Point
  pub answers : List Answers

abbrev pub initial : Process
initial = record {
  thread = 0;
  sockets = (negsuc 0, negsuc 0);
  backend_end = none;
  hid_manager = null;
  frontend_end = none;
  frontend = Manager.initial;
  point = none;
  answers = [];
}

-- socketpair leaves the array as it is when it fails.
abbrev pub paired : Option (ℕ × ℕ) → ℤ × ℤ → ℤ × ℤ
paired none sockets = sockets
paired (some (a, b)) sockets = (pos a, pos b)

-- HACKStart; it returns `sockets[1]`.
unfoldable pub hack_start : Answers → Process → Process
hack_start a p =
    if p.thread == 0
    then record p {
      thread = a.thread;
      sockets = paired a.pair p.sockets;
      point = if a.thread == 0 then none else some created;
      answers = p.answers ++ a ∷ [];
    }
    else p

-- Startup: a connection is made once. `none` is one that has no socket.
unfoldable pub startup : Host → Answers → Process → Option Process
unfolding hack_start
startup host a p = elim p.frontend_end [
  | some e ↦ some (record p { frontend = Manager.startup p.frontend })
  | none ↦ do
    let q = hack_start a p
    e ← open_endpoint (host.opening q.sockets.1) application q.sockets.1
    some (record q { frontend_end = some e; frontend = Manager.startup p.frontend })
]

-- The next part of ManagerThread. `none` is a connection that has no socket, or the use of a HID manager that
-- is not there.
unfoldable pub advance : Host → Point → Process → Option Process
advance host created p = do
  e ← open_endpoint (host.opening p.sockets.0) manager p.sockets.0
  some (record p { backend_end = some e; point = some connected })
advance host connected p = do
  ref ← start_up host.usages host.manager_answers
  some (record p { hid_manager = ref; point = some running })
-- CFRunLoopRun returns.
advance host running p = some (record p { point = some left })
advance host left p = do
  ref ← shut_down p.hid_manager
  some (record p { hid_manager = ref; point = some finished })
advance host finished p = some p

unfoldable pub manager_moves : Host → Process → Option Process
unfolding advance
manager_moves host p = elim p.point [ none ↦ some p | some point ↦ advance host point p ]
