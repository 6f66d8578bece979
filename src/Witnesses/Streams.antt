-- ===== src/Witnesses/Streams.antt =====
-- Packets on a socket.
use mfi_wrapper.Connection.Sync.{padded}
use mfi_wrapper.Connection.Framing.{parse_delivers_all}
use mathlib.Core.List.{flatten}
use mfi_wrapper.Prelude.{ℕ, ◌≡◌, List, [], ◌∷◌, map, some, arith, replicate}
use mfi_wrapper.Protocol.{DataPacket, disconnect, set_player_index}
use mfi_wrapper.Protocol.Wire.{header, decode}
use mfi_wrapper.Connection.Defs.{fresh, send, Parsed, parse}
use mfi_wrapper.Connection.Sync.{AllFrames}
use mfi_wrapper.Connection.Framing.{Delivered, parse-Delivered}
use mfi_wrapper.Connection.RoundTrip.{send-IsFrame, parse_decodes_sent}

-- A player index for one controller, then the end of another.
abbrev two_packets : List DataPacket
two_packets = set_player_index 3 1 ∷ disconnect 2 ∷ []

-- Reads of one byte, as many as the packets have.
abbrev byte_by_byte : List ℕ
byte_by_byte = replicate 28 1

two_frames : AllFrames (map send two_packets)
two_frames = (
  send-IsFrame (set_player_index 3 1) (omega arith),
  (send-IsFrame (disconnect 2) (omega arith), tt),
)

parse_decodes_sent_example :
    (r : Parsed) × (parse byte_by_byte fresh (flatten (map send two_packets)) ≡ some r)
    × (map decode r.handled ≡ map some two_packets)
unfolding send flatten header
parse_decodes_sent_example =
    parse_decodes_sent byte_by_byte two_packets (omega arith) (omega arith) (omega arith)

parse-Delivered_example :
    (r : Parsed) × (parse (3 ∷ 4 ∷ 100 ∷ 0 ∷ []) fresh (flatten (map send two_packets)) ≡ some r)
    × Delivered (map send two_packets) r
parse-Delivered_example = parse-Delivered (3 ∷ 4 ∷ 100 ∷ 0 ∷ []) (map send two_packets) two_frames

parse_delivers_all_example :
    (r : Parsed) × (parse byte_by_byte fresh (flatten (map send two_packets)) ≡ some r)
    × (r.handled ≡ map padded (map send two_packets))
    × (r.pending ≡ [])
unfolding send flatten header
parse_delivers_all_example =
    parse_delivers_all byte_by_byte (map send two_packets) two_frames (omega arith) (omega arith)
