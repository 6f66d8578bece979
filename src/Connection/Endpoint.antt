-- ===== src/Connection/Endpoint.antt =====
-- The constructor, the destructor and the callback of Connection, src/common.cpp, over what they set up
-- in the system: the descriptor's mode, and the source in the run loop of the thread that constructs.
use mfi_wrapper.Prelude.{ℕ, Bool, List, Option, none, some, if◌then◌else◌}
use mfi_wrapper.Prelude.Int.{ℤ}
use mfi_wrapper.Connection.Defs.{Connection, fresh, Parsed, parse}

-- The two threads of the program.
pub data Thread : Type 0 where
  application manager : Thread

pub record Endpoint : Type 0 where
  pub descriptor : ℤ
  -- O_NONBLOCK
  pub is_non_blocking : Bool
  -- The thread whose run loop has the source, if it is valid.
  pub source : Option Thread
  pub connection : Connection

-- What the system answers to the constructor: whether fcntl set the mode, which the constructor does not look
-- at, and whether CFSocketCreateWithNative gave a socket.
pub record Opening : Type 0 where
  pub sets_non_blocking : Bool
  pub gives_socket : Bool

-- The constructor, on a thread. `none` is a null CFSocketRef in CFSocketCreateRunLoopSource, which does not
-- document one.
unfoldable pub open_endpoint : Opening → Thread → ℤ → Option Endpoint
open_endpoint o thread d =
    if o.gives_socket
    then some (record {
      descriptor = d;
      is_non_blocking = o.sets_non_blocking;
      source = some thread;
      connection = fresh;
    })
    else none

-- The destructor.
unfoldable pub close_endpoint : Endpoint → Endpoint
close_endpoint e = record e { source = none }

-- `blocked` is a `read` that waits for bytes; `aborted` is a failed assertion or a store behind the packet.
pub data Called : Type 0 where
  returned : Endpoint → List ℕ → List (List ℕ) → Called
  blocked aborted : Called

abbrev pub called_with : Endpoint → Option Parsed → Called
called_with e none = aborted
called_with e (some r) = returned (record e { connection = r.connection }) r.pending r.handled

-- Callback: the loop of `Parse` ends when `read` has nothing, which a blocking descriptor never says.
unfoldable pub callback : List ℕ → Endpoint → List ℕ → Called
callback schedule e pending =
    if e.is_non_blocking then called_with e (parse schedule e.connection pending) else blocked
