-- ===== src/Connection/RoundTrip.antt =====
-- What a sender writes, the receiver's parser and dispatch read back.
use mathlib.Core.List.{flatten}
use mfi_wrapper.Prelude.{
  ℕ, zero, suc, get_or, ◌^◌, ◌≤◌, ◌<◌, ◌≡◌, refl, sym, ap, ap₂, ◌∙◌, List, [], ◌∷◌, ◌++◌, map, some,
  append_assoc, arith, length, take, drop, length-append, take-length-append, drop-length-append,
}
use mfi_wrapper.Protocol.{
  ConnectPacket, InputState, DataPacket, connect, disconnect, input_state, set_player_index,
  pause_pressed,
}
use mfi_wrapper.Protocol.Wire.{
  le32, word, size_of, type_of, handle_of, header, connect_bytes, state_words, words_bytes,
  state_bytes, connect_of, state_of, decode,
}
use mfi_wrapper.Connection.Defs.{fresh, send, Parsed, parse}
use mfi_wrapper.Connection.Sync.{IsFrame, AllFrames, padded}
use mfi_wrapper.Connection.Framing.{AllPositive, parse_delivers_all}

abbrev pub AllWords : List ℕ → Type 0
AllWords [] = Unit {0}
AllWords (w ∷ ws) = (w < 2 ^ 32) × AllWords ws

-- The fields of a packet fit their C types, and the name fills its array.
abbrev pub IsPacket : DataPacket → Type 0
IsPacket (connect handle p) =
    (handle < 2 ^ 32)
    × (length p.vendor_name ≡ 256)
    × (p.present_controls < 2 ^ 32)
    × (p.analog_controls < 2 ^ 32)
IsPacket (disconnect handle) = handle < 2 ^ 32
IsPacket (input_state handle s) = (handle < 2 ^ 32) × AllWords (state_words s)
IsPacket (set_player_index handle i) = (handle < 2 ^ 32) × (i < 2 ^ 32)
IsPacket (pause_pressed handle) = handle < 2 ^ 32

abbrev pub AllPackets : List DataPacket → Type 0
AllPackets [] = Unit {0}
AllPackets (p ∷ ps) = IsPacket p × AllPackets ps

pub word-le32 : (n : ℕ) (rest : List ℕ) → n < 2 ^ 32 → word (le32 n ++ rest) ≡ n
unfolding word le32
word-le32 n rest h = omega arith

length-connect_bytes :
    (p : ConnectPacket) → length p.vendor_name ≡ 256 → length (connect_bytes p) ≡ 264
unfolding connect_bytes le32
length-connect_bytes p h =
    omega (arith, length-append p.vendor_name (le32 p.present_controls ++ le32 p.analog_controls))

-- For a packet whose fields fit their C types and whose name fills its array, the sender writes as
-- many bytes as the size field says, at least 12 and at most the receiver's buffer, and the size's
-- low byte is at least 4.
pub send-IsFrame : (p : DataPacket) → IsPacket p → IsFrame (send p)
unfolding send size_of header le32 word state_bytes
send-IsFrame (connect handle p) h = record {
  sized = omega (arith, length-connect_bytes p h.1);
  whole = omega arith;
  fits = omega (arith, length-connect_bytes p h.1);
  low_byte = omega arith;
}
send-IsFrame (disconnect handle) h = omega arith
send-IsFrame (input_state handle s) h = omega arith
send-IsFrame (set_player_index handle i) h = omega arith
send-IsFrame (pause_pressed handle) h = omega arith

header-type :
    (size type handle : ℕ) (rest : List ℕ)
    → type < 2 ^ 32
    → type_of (header size type handle ++ rest) ≡ type
unfolding type_of header le32 word
header-type size type handle rest h = omega arith

header-handle :
    (size type handle : ℕ) (rest : List ℕ)
    → handle < 2 ^ 32
    → handle_of (header size type handle ++ rest) ≡ handle
unfolding handle_of header le32 word
header-handle size type handle rest h = omega arith

connect_of-connect_bytes :
    (size type handle : ℕ) (p : ConnectPacket) (rest : List ℕ)
    → IsPacket (connect handle p)
    → connect_of (header size type handle ++ (connect_bytes p ++ rest)) ≡ p
unfolding connect_of header connect_bytes le32
connect_of-connect_bytes size type handle p rest h = λ i. record {
  vendor_name = name i;
  present_controls = (ap word present ∙ word-le32 p.present_controls _ h.2) i;
  analog_controls = (ap word analog ∙ word-le32 p.analog_controls rest h.3) i;
}
  where
    controls : List ℕ
    controls = le32 p.present_controls ++ le32 p.analog_controls

    whole : p.vendor_name ++ controls ++ rest ≡ p.vendor_name ++ (controls ++ rest)
    whole = append_assoc p.vendor_name controls rest

    name : take 256 (p.vendor_name ++ controls ++ rest) ≡ p.vendor_name
    name = ap₂ take (sym h.1) whole ∙ take-length-append p.vendor_name (controls ++ rest)

    present : drop 256 (p.vendor_name ++ controls ++ rest) ≡ controls ++ rest
    present =
        ap (drop 256) whole
        ∙ drop-length-append p.vendor_name (controls ++ rest) 256 0 (omega (arith, h.1))

    analog : drop 260 (p.vendor_name ++ controls ++ rest) ≡ le32 p.analog_controls ++ rest
    analog =
        ap (drop 260) whole
        ∙ drop-length-append p.vendor_name (controls ++ rest) 260 4 (omega (arith, h.1))

-- The words that a buffer starts with.
words_of : ℕ → List ℕ → List ℕ
words_of zero m = []
words_of (suc n) m = word m ∷ words_of n (drop 4 m)

words_of-words_bytes :
    (ws rest : List ℕ) → AllWords ws → words_of (length ws) (words_bytes ws ++ rest) ≡ ws
unfolding words_of words_bytes le32
words_of-words_bytes [] rest h = refl
words_of-words_bytes (w ∷ ws) rest h =
    ap₂ ◌∷◌ (word-le32 w (words_bytes ws ++ rest) h.0) (words_of-words_bytes ws rest h.1)

InputState-ext : (s t : InputState ℕ) → state_words s ≡ state_words t → s ≡ t
InputState-ext s t e = λ i. record {
  dpad_x = get_or (e i) 0 0;
  dpad_y = get_or (e i) 1 0;
  a = get_or (e i) 2 0;
  b = get_or (e i) 3 0;
  x = get_or (e i) 4 0;
  y = get_or (e i) 5 0;
  left_shoulder = get_or (e i) 6 0;
  right_shoulder = get_or (e i) 7 0;
  left_stick_x = get_or (e i) 8 0;
  left_stick_y = get_or (e i) 9 0;
  right_stick_x = get_or (e i) 10 0;
  right_stick_y = get_or (e i) 11 0;
  left_trigger = get_or (e i) 12 0;
  right_trigger = get_or (e i) 13 0;
  select = get_or (e i) 14 0;
  start = get_or (e i) 15 0;
  left_stick_button = get_or (e i) 16 0;
  right_stick_button = get_or (e i) 17 0;
}

state_of-state_bytes :
    (size type handle : ℕ) (s : InputState ℕ) (rest : List ℕ)
    → AllWords (state_words s)
    → state_of (header size type handle ++ (state_bytes s ++ rest)) ≡ s
unfolding state_of header state_bytes le32 words_of
state_of-state_bytes size type handle s rest h =
    InputState-ext _ s (words_of-words_bytes (state_words s) rest h)

-- A packet whose fields fit their C types and whose name fills its array, as its sender writes it,
-- is read back as itself, with any bytes behind it in the buffer.
pub decode-send : (p : DataPacket) (rest : List ℕ) → IsPacket p → decode (send p ++ rest) ≡ some p
unfolding decode send
decode-send (connect handle p) rest h = rw (
  append_assoc (header 276 0 handle) (connect_bytes p) rest,
  header-type 276 0 handle (connect_bytes p ++ rest) (omega arith),
  header-handle 276 0 handle (connect_bytes p ++ rest) h.0,
  connect_of-connect_bytes 276 0 handle p rest h,
)
decode-send (disconnect handle) rest h =
    rw (header-type 12 1 handle rest (omega arith), header-handle 12 1 handle rest h)
decode-send (input_state handle s) rest h = rw (
  append_assoc (header 84 2 handle) (state_bytes s) rest,
  header-type 84 2 handle (state_bytes s ++ rest) (omega arith),
  header-handle 84 2 handle (state_bytes s ++ rest) h.0,
  state_of-state_bytes 84 2 handle s rest h.1,
)
decode-send (set_player_index handle i) rest h =
    rw
      (
        append_assoc (header 16 3 handle) (le32 i) rest,
        header-type 16 3 handle (le32 i ++ rest) (omega arith),
        header-handle 16 3 handle (le32 i ++ rest) h.0,
      )
      (unfold header le32 in ap (λ n. some (set_player_index handle n)) (word-le32 i rest h.1))
decode-send (pause_pressed handle) rest h =
    rw (header-type 12 4 handle rest (omega arith), header-handle 12 4 handle rest h)

decode-map :
    (ps : List DataPacket) → AllPackets ps → map decode (map padded (map send ps)) ≡ map some ps
decode-map [] h = refl
decode-map (p ∷ ps) h = ap₂ ◌∷◌ (decode-send p _ h.0) (decode-map ps h.1)

send-AllFrames : (ps : List DataPacket) → AllPackets ps → AllFrames (map send ps)
send-AllFrames [] h = tt
send-AllFrames (p ∷ ps) h = (send-IsFrame p h.0, send-AllFrames ps h.1)

-- For packets whose fields fit their C types and whose names fill their arrays: when a socket holds
-- the bytes that the senders write for them, and each of at least as many calls of `read` as there
-- are bytes has something ready, `Parse` from a fresh connection returns, and what it hands over
-- decodes to the packets that were sent: all of them, in order, however the reads are split.
pub parse_decodes_sent :
    (schedule : List ℕ) (ps : List DataPacket)
    → AllPackets ps
    → AllPositive schedule
    → length (flatten (map send ps)) ≤ length schedule
    → (r : Parsed) × (parse schedule fresh (flatten (map send ps)) ≡ some r)
      × (map decode r.handled ≡ map some ps)
parse_decodes_sent schedule ps packets positive enough =
    let (r, parses, handled, _) =
      parse_delivers_all schedule (map send ps) (send-AllFrames ps packets) positive enough in
    (r, parses, ap (map decode) handled ∙ decode-map ps packets)
