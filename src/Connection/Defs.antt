-- ===== src/Connection/Defs.antt =====
-- The senders and the reader of src/common.cpp.
use mathlib.Core.Option
use mfi_wrapper.Prelude.{
  ℕ, ◌+◌, ◌-◌, ◌%◌, ◌^◌, min, List, [], ◌∷◌, ◌++◌, Option, none, some, length, take, drop,
  replicate, ltb, leb, ◌==◌, if◌then◌else◌,
}
use mfi_wrapper.Protocol.{
  ConnectPacket, InputState, DataPacket, connect, disconnect, input_state, set_player_index,
  pause_pressed, packet_connect, packet_disconnect, packet_input_state, packet_set_player_index,
  packet_pause_pressed, generic_size, connect_size, input_state_size, set_player_index_size,
  data_packet_size,
}
use mfi_wrapper.Protocol.Wire.{le32, header, size_of, connect_bytes, state_bytes}

-- The bytes that each sender writes.
unfoldable pub send_generic_packet : ℕ → ℕ → List ℕ
send_generic_packet type handle = header generic_size type handle

unfoldable pub send_connect : ℕ → ConnectPacket → List ℕ
send_connect handle p = header connect_size packet_connect handle ++ connect_bytes p

unfoldable pub send_disconnect : ℕ → List ℕ
unfolding send_generic_packet
send_disconnect handle = send_generic_packet packet_disconnect handle

unfoldable pub send_input_state : ℕ → InputState ℕ → List ℕ
send_input_state handle s = header input_state_size packet_input_state handle ++ state_bytes s

unfoldable pub send_set_player_index : ℕ → ℕ → List ℕ
send_set_player_index handle i =
    header set_player_index_size packet_set_player_index handle ++ le32 i

unfoldable pub send_pause_pressed : ℕ → List ℕ
unfolding send_generic_packet
send_pause_pressed handle = send_generic_packet packet_pause_pressed handle

-- The sender for each kind of packet.
unfoldable pub send : DataPacket → List ℕ
unfolding send_connect send_disconnect send_input_state send_set_player_index send_pause_pressed
send (connect handle p) = send_connect handle p
send (disconnect handle) = send_disconnect handle
send (input_state handle s) = send_input_state handle s
send (set_player_index handle i) = send_set_player_index handle i
send (pause_pressed handle) = send_pause_pressed handle

-- `Packet`, as the bytes that `Data` points at, and `Position`.
pub record Connection : Type 0 where
  pub packet : List ℕ
  pub position : ℕ

-- The constructor's state, and that of `Parse` after a packet is handled: all zero.
abbrev pub fresh : Connection
fresh = record { packet = replicate data_packet_size 0; position = 0 }

-- The bytes asked for: up to the end of the size field, then up to the end of the packet.
unfoldable pub target_size : Connection → ℕ
target_size c = if ltb c.position 4 then 4 else size_of c.packet

-- What one `Read` does. `would_block` is its `false`; `overrun` is a store behind `Packet`, which
-- C++ leaves undefined; `failed` is the failure of its assertion, which stops the process.
pub data ReadResult : Type 0 where
  would_block overrun failed : ReadResult
  received : Connection → List ℕ → ReadResult

-- `read` puts the bytes at `Data[Position]`.
unfoldable pub store : Connection → List ℕ → Connection
store c chunk = record {
  packet = take c.position c.packet ++ chunk ++ drop (c.position + length chunk) c.packet;
  position = c.position + length chunk;
}

-- The system's `read` returns some number of bytes, at most those asked for and those that wait in
-- the socket. How many is its choice: `ready` is a bound that it sets, and 0 bytes are a failure.
unfoldable pub read : ℕ → Connection → List ℕ → ReadResult
unfolding target_size store
read ready c pending =
    let wanted = (target_size c + 2 ^ 32 - c.position) % 2 ^ 32 in
    let n = min ready (min wanted (length pending)) in
    if n == 0
    then would_block
    else if ltb (length c.packet) (c.position + n)
    then overrun
    else if ltb (target_size c) (c.position + n)
    then failed
    else received (store c (take n pending)) (drop n pending)

-- The body of the loop of `Parse`: the packet handed to `HandlePacket`, if it is complete.
unfoldable pub finish : Connection → Connection × List (List ℕ)
finish c = if leb (size_of c.packet) c.position then (fresh, c.packet ∷ []) else (c, [])

pub record Parsed : Type 0 where
  pub connection : Connection
  pub pending : List ℕ
  pub handled : List (List ℕ)

-- The packets handled before.
unfoldable pub after_handling : List (List ℕ) → Parsed → Parsed
after_handling out r = record r { handled = out ++ r.handled }

-- `Parse`, with the system's bound for each call of `read` in turn; `none` is an overrun or a failed
-- assertion. After the
-- listed calls the socket has nothing ready.
unfoldable pub parse : List ℕ → Connection → List ℕ → Option Parsed
parse [] c pending = some (record { connection = c; pending = pending; handled = [] })
parse (ready ∷ rest) c pending = elim (read ready c pending) [
  | would_block ↦ some (record { connection = c; pending = pending; handled = [] })
  | overrun ↦ none
  | failed ↦ none
  | received c' pending' ↦
      Option.map (after_handling (finish c').1) (parse rest (finish c').0 pending')
]
