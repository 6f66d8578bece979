-- ===== src/BtFilter/Logger.antt =====
-- btserverfilter/src/PacketLogger.cpp: the packets of the radio, sent to a listener over a socket. The
-- system's `write` is given by its answers: `none` is a failure, `some n` takes at most n bytes.
pub mod Laws
pub mod Reader
use mfi_wrapper.Prelude.{
  ℕ, ◌+◌, ◌-◌, ◌%◌, ◌^◌, Bool, true, false, ◌&&◌, ◌||◌, List, [], ◌∷◌, ◌++◌, Option, none, some,
  get_or, take, drop, ◌==◌, if◌then◌else◌,
}
use mfi_wrapper.Protocol.Wire.{le32}

-- `socket` is -1 or open; what the listener got; and the answers to come.
pub record PacketLogger : Type 0 where
  pub is_open : Bool
  pub stream : List ℕ
  pub answers : List (Option ℕ)

-- The constructor: whether it was given an address and a port, whether the system gave a socket, and
-- whether `connect` returned 0 or went on in the background.
unfoldable pub new_logger : Bool → Bool → Bool → Bool → List (Option ℕ) → PacketLogger
new_logger has_target has_socket is_connected in_progress answers = record {
  is_open = has_target && (has_socket && (is_connected || in_progress));
  stream = [];
  answers = answers;
}

-- Write, and the last `write` of the loggers, which fails for the socket -1. Whoever logs forgets a socket
-- that fails, and takes a part of the bytes for all.
unfoldable pub write_value : PacketLogger → List ℕ → PacketLogger
write_value l bytes = if l.is_open then go l.answers else l
  where
    go : List (Option ℕ) → PacketLogger
    go [] = record l { is_open = false }
    go (none ∷ rest) = record l { is_open = false; answers = rest }
    go (some n ∷ rest) = record l { stream = l.stream ++ take n bytes; answers = rest }

unfoldable pub write_values : PacketLogger → List (List ℕ) → PacketLogger
write_values l [] = l
write_values l (v ∷ vs) = write_values (write_value l v) vs

-- Whether a packet is written to the radio or read from it, and what the log calls it.
pub data Direction : Type 0 where
  to_radio from_radio : Direction

abbrev pub kind : Direction → ℕ → ℕ
kind to_radio first = if first == 1 then 0 else 2
kind from_radio first = if first == 4 then 1 else 3

-- The values that LogWrite and LogRead write, as the bytes of a little-endian machine. `aSize` is a
-- `uint32_t`.
unfoldable pub values : Direction → List ℕ → ℕ → List (List ℕ)
values dir bytes size =
    le32 ((size + 8) % 2 ^ 32)
    ∷ le32 0
    ∷ le32 0
    ∷ (kind dir (get_or bytes 0 0) ∷ [])
    ∷ take ((size + 2 ^ 32 - 1) % 2 ^ 32) (drop 1 bytes)
    ∷ []

-- LogWrite and LogRead.
unfoldable pub log_packet : PacketLogger → Direction → List ℕ → ℕ → PacketLogger
unfolding write_values
log_packet l dir bytes size = if l.is_open then write_values l (values dir bytes size) else l

-- A history of packets, each of its own size.
abbrev pub History : Type 0
History = List (Direction × List ℕ)
