-- ===== src/BtFilter/Hooks.antt =====
-- The hooks of btserverfilter/src/BTServerFilter.cpp. What the system calls answer is given; no packet
-- logger is made (`entry` leaves it out), so the hooks' tests of `pktLog` fail.
use mfi_wrapper.Prelude.{
  ℕ, ◌+◌, ◌*◌, ◌^◌, Bool, ◌||◌, not, List, [], ◌∷◌, ◌++◌, Option, none, some, length, ltb, leb,
  ◌==◌, if◌then◌else◌,
}
use mfi_wrapper.Prelude.Int.{ℤ, pos, pos_part, neg_part, leb_ℤ}
use mfi_wrapper.BtFilter.Defs.{
  Globals, byte, ReadContext, Filtered, run_filter, filter_accept_connection_request_command,
  filter_pin_code_request_reply_command,
}

-- Equality of descriptors.
abbrev pub same_file : ℤ → ℤ → Bool
same_file a b = pos_part a + neg_part b == pos_part b + neg_part a

-- The hook on `socket`; `made` is the system's answer.
unfoldable pub new_socket : Globals → ℕ → ℤ → Globals × ℤ
new_socket g domain made = (if domain == 32 then record g { bluetooth_socket = made } else g, made)

-- The write filter of a packet, if it is a command that has one.
unfoldable pub filtered_command : Globals → List ℕ → Option (List ℕ)
filtered_command g buf =
    let command = 2 ^ 8 * byte buf 2 + byte buf 1 in
    if byte buf 0 == 0x01
    then (if command == 0x0409
        then filter_accept_connection_request_command buf
        else if command == 0x040D
        then filter_pin_code_request_reply_command g buf
        else none)
    else none

-- What the hook on `write` returns, and the calls of the system's `write` in order.
pub record Written : Type 0 where
  pub result : ℤ
  pub calls : List (List ℕ)

-- `answers k` is what the system returns to the hook's call number `k`.
unfoldable pub new_write : Globals → (ℕ → ℤ) → ℤ → List ℕ → Written
new_write g answers file buf =
    let plain : Written = record { result = answers 0; calls = buf ∷ [] } in
    if not (same_file file g.bluetooth_socket) then plain else elim (filtered_command g buf) [
      | none ↦ plain
      | some packet ↦
          if leb_ℤ (pos 1) (answers 0)
          then record { result = pos (length buf); calls = packet ∷ [] }
          else record { result = answers 1; calls = packet ∷ buf ∷ [] }
    ]

-- What `read` returns to the Bluetooth server.
pub record ReadDone : Type 0 where
  pub globals : Globals
  pub bytes : List ℕ

-- The length of the packet that the context starts, 0 if it is of no known kind. `none` is a read
-- behind the end of the context.
unfoldable pub packet_size : List ℕ → Option ℕ
packet_size context =
    if byte context 0 == 0x04
    then (if ltb (length context) 3 then none else some (byte context 2 + 3))
    else if byte context 0 == 0x02
    then (if ltb (length context) 5
        then none
        else some (byte context 3 + 2 ^ 8 * byte context 4 + 5))
    else some 0

-- The filters of an event.
unfoldable pub run_filters : Globals → ReadContext → Option Filtered
run_filters g c =
    let plain : Option Filtered = some (record { globals = g; read_context = c }) in
    if byte c.context 0 == 0x04
    then elim (g.read_filters (byte c.context 1)) [ none ↦ plain | some f ↦ run_filter f g c ]
    else plain

-- The hook on `read` for bytes of the Bluetooth socket. `none` is an access out of bounds.
unfoldable pub filter_read : Globals → List ℕ → Option ReadDone
filter_read g bytes =
    let whole = g.context ++ bytes in
    let start : ReadContext = record {
      data_bytes = bytes;
      offset = length g.context;
      size = length whole;
      context = whole;
    } in
    elim (packet_size whole) [
      | none ↦ none
      | some size ↦ elim (run_filters g start) [
        | none ↦ none
        | some f ↦
            let left = if leb size f.read_context.size then [] else f.read_context.context in
            some (record {
              globals = record f.globals { context = left };
              bytes = f.read_context.data_bytes;
            })
      ]
    ]

-- The hook on `read`, where the system's `read` returned these bytes. A call that failed, or found the
-- end of the file, returned none, and the hook passes the system's answer on.
unfoldable pub new_read : Globals → ℤ → List ℕ → Option ReadDone
new_read g file bytes =
    if not (same_file file g.bluetooth_socket) || length bytes == 0
    then some (record { globals = g; bytes = bytes })
    else filter_read g bytes
